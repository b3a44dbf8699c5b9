-- ===== src/Runtime/Coordinator/Approvals.antt =====
-- The approval of a turn, from the request to the turn that runs again.
use liz.Prelude.{
  ℕ, ◌+◌, ◌%◌, ◌^◌, String, ◌≡◌, refl, Bool, true, false, Option, none, some, arith, eq_refl,
}
use liz.Assoc.{lookup}
use liz.Assoc.Laws.{lookup-insert}
use liz.Protocol.Ids.{ThreadId, TurnId}
use liz.Protocol.Thread.{Thread}
use liz.Protocol.Turn.{Turn, TurnStatus}
use liz.Protocol.Approval.{ApprovalStatus, ApprovalRequest}
use liz.Protocol.Checkpoint.{Checkpoint}
use liz.Runtime.Error.{ok, is_ok}
use liz.Runtime.State.{RuntimeCoordinator}
use liz.Runtime.Stores.{put_thread, get_thread, put_checkpoint, read_turn_log, append_turn_log}
use liz.Runtime.Ids.{now_timestamp, next_checkpoint_id, next_approval_id, identifier, timestamp}
use liz.Runtime.PolicyEngine.{PolicyDecision}
use liz.Runtime.TurnManager.{
  find_thread, find_turn, put_turn, mark_waiting_approval, log_turn, next_sequence_for,
  recover_sequence,
}
use liz.Runtime.TurnManager.Outcomes.{Answers}
use liz.Runtime.TurnManager.Waiting.{mark_waiting_approval_lem}
use liz.Runtime.Coordinator.{
  checkpoint_if, create_checkpoint, approval_for, require_approval_for_turn,
}

abbrev pub is_some : {A : Type 0} → Option A → Bool
is_some none = false
is_some (some a) = true

module _ (required : Bool) (thread_id : ThreadId) (turn_id : TurnId) (reason : String)
    (s : RuntimeCoordinator) where
  checkpoint_if-faulty :
      (n : ℕ)
      → s.stores.faulty n ≡ false
      → (checkpoint_if required thread_id turn_id reason s).1.stores.faulty n ≡ false
  unfolding checkpoint_if create_checkpoint next_checkpoint_id now_timestamp put_checkpoint
      find_thread get_thread put_thread
  checkpoint_if-faulty n h = ground arith

  checkpoint_if-state :
      ((checkpoint_if required thread_id turn_id reason s).1.turn_manager ≡ s.turn_manager)
      × ((checkpoint_if required thread_id turn_id reason s).1.approvals ≡ s.approvals)
  unfolding checkpoint_if create_checkpoint next_checkpoint_id now_timestamp put_checkpoint
      find_thread get_thread put_thread
  checkpoint_if-state = ground arith

-- The thread on file under an id is one of that id.
abbrev pub HasThread : ThreadId → RuntimeCoordinator → Type 0
HasThread id s =
    (stored : Thread) × (lookup id s.stores.paths.threads ≡ some stored) × (stored.id ≡ id)

module _ (thread_id : ThreadId) (turn_id : TurnId) (reason : String) (s : RuntimeCoordinator) where
  checkpoint_if-HasThread :
      (required : Bool)
      → Answers s
      → HasThread thread_id s
      → HasThread thread_id (checkpoint_if required thread_id turn_id reason s).1
  unfolding checkpoint_if create_checkpoint next_checkpoint_id now_timestamp put_checkpoint
      find_thread get_thread put_thread
  checkpoint_if-HasThread false a h = h
  checkpoint_if-HasThread true a (stored, f, i) = (
    record stored {
      latest_checkpoint_id =
          some
            (identifier "checkpoint" (s.ids.clock s.ids.readings) ((s.ids.sequence + 1) % 2 ^ 64));
      updated_at = timestamp (s.ids.clock (s.ids.readings + 1));
    },
    grind (arith, lookup-insert, eq_refl),
    i,
  )

  checkpoint_if-is_ok :
      (required : Bool)
      → Answers s
      → HasThread thread_id s
      → (is_ok (checkpoint_if required thread_id turn_id reason s).0 ≡ true)
        × ((checkpoint : Option Checkpoint)
            → (checkpoint_if required thread_id turn_id reason s).0 ≡ ok checkpoint
            → is_some checkpoint ≡ required)
        × ((c : Checkpoint)
            → (checkpoint_if required thread_id turn_id reason s).0 ≡ ok (some c)
            → (lookup c.id
                  (checkpoint_if required thread_id turn_id reason s).1.stores.paths.checkpoints
                ≡ some c)
              × (c.thread_id ≡ thread_id)
              × (c.turn_id ≡ turn_id))
  unfolding checkpoint_if create_checkpoint next_checkpoint_id now_timestamp put_checkpoint
      find_thread get_thread put_thread
  checkpoint_if-is_ok false a h = (refl, λ checkpoint e. ground arith, λ c e. ground arith)
  checkpoint_if-is_ok true a (stored, f, i) =
      (grind arith, λ checkpoint e. grind arith, λ c e. grind (arith, lookup-insert, eq_refl))

mark_waiting_approval-checkpoints :
    (thread_id : ThreadId) (turn_id : TurnId) (reason : String) (s : RuntimeCoordinator)
    → (mark_waiting_approval thread_id turn_id reason s).1.stores.paths.checkpoints
      ≡ s.stores.paths.checkpoints
unfolding mark_waiting_approval find_thread find_turn put_turn now_timestamp get_thread put_thread
    log_turn next_sequence_for recover_sequence read_turn_log append_turn_log
mark_waiting_approval-checkpoints thread_id turn_id reason s = ground arith

-- With a file system that answers, a turn in memory, for a thread on file under its own id, is
-- stopped for approval: the turn waits in memory, and a checkpoint comes back just when the decision
-- requires one, which names the thread and the turn and is on file under its id. The approval that
-- comes back is pending, names the turn and is kept under its id.
pub require_approval_for_turn_lem :
    (thread_id : ThreadId) (turn_id : TurnId) (decision : PolicyDecision) (s : RuntimeCoordinator)
    (turn : Turn)
    → Answers s
    → HasThread thread_id s
    → lookup turn_id s.turn_manager.active_turns ≡ some turn
    → let (result, after) = require_approval_for_turn thread_id turn_id decision s in
      let waiting : Turn = record turn {
        status = TurnStatus.waiting_approval;
        summary = some decision.reason;
      } in
      (is_ok result ≡ true)
      × (lookup turn_id after.turn_manager.active_turns ≡ some waiting)
      × ((checkpoint : Option Checkpoint) (approval : ApprovalRequest)
          → result ≡ ok (checkpoint, approval)
          → (is_some checkpoint ≡ decision.requires_checkpoint)
            × ((c : Checkpoint)
                → checkpoint ≡ some c
                → (lookup c.id after.stores.paths.checkpoints ≡ some c)
                  × (c.thread_id ≡ thread_id)
                  × (c.turn_id ≡ turn_id))
            × (lookup approval.id after.approvals ≡ some approval)
            × (approval.status ≡ ApprovalStatus.pending)
            × (approval.turn_id ≡ turn_id))
unfolding require_approval_for_turn next_approval_id approval_for
require_approval_for_turn_lem thread_id turn_id decision s turn a h m =
    let required = decision.requires_checkpoint in
    let reason = decision.reason in
    let checked : RuntimeCoordinator = (checkpoint_if required thread_id turn_id reason s).1 in
    let made = checkpoint_if-is_ok thread_id turn_id reason s required a h in
    let (stored, f, i) = checkpoint_if-HasThread thread_id turn_id reason s required a h in
    let (turns, approvals) = checkpoint_if-state required thread_id turn_id reason s in
    let marked =
      mark_waiting_approval_lem thread_id turn_id reason (next_approval_id checked).1 stored turn
        (λ n. checkpoint_if-faulty required thread_id turn_id reason s n (a n)) f i
        (ground (arith, turns, m)) in
    let kept =
      mark_waiting_approval-checkpoints thread_id turn_id reason (next_approval_id checked).1 in
    let (fine, asked, filed) = made in
    let checked_result = (checkpoint_if required thread_id turn_id reason s).0 in
    grind (
      arith,
      fine,
      asked,
      marked,
      kept,
      λ (c : Checkpoint) (e : checked_result ≡ ok (some c)). (filed c e).0,
      λ (c : Checkpoint) (e : checked_result ≡ ok (some c)). (filed c e).1,
      λ (c : Checkpoint) (e : checked_result ≡ ok (some c)). (filed c e).2,
      lookup-insert,
      eq_refl,
    )
