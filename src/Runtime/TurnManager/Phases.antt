-- ===== src/Runtime/TurnManager/Phases.antt =====
-- A thread as a machine that is idle, runs a turn, or waits with one for approval, and the steps that
-- the operations of the turn manager take it through.
use liz.Prelude.{
  String, ◌≡◌, refl, Bool, true, false, some, [], ◌∷◌, ◌==◌, arith, eq_iff, eq_refl, if◌then◌else◌,
}
use liz.Assoc.{Assoc, lookup, insert, remove, AllValues}
use liz.Assoc.All.{AllValues-remove}
use liz.Protocol.Ids.{ThreadId, TurnId}
use liz.Protocol.Thread.{Thread}
use liz.Protocol.Turn.{Turn, TurnStatus}
use liz.Protocol.Requests.{TurnStartRequest, TurnCancelRequest}
use liz.Runtime.State.{RuntimeCoordinator}
use liz.Runtime.TurnManager.{
  started_turn, start_turn, insert_turn, put_turn, remove_turn, find_turn, cancel_turn,
  mark_waiting_approval, mark_running, complete_turn, fail_turn,
}
use liz.Runtime.TurnManager.Frames.{turn_frames}
use liz.Runtime.TurnManager.Exclusive.{IsExclusive, OfOtherThread, others_of_no_running}

pub data Phase : Type 0 where
  idle : Phase
  running waiting : TurnId → Phase

-- The steps of the machine: nothing, a turn that starts, one that stops for approval or goes on, and
-- one that ends. A turn never takes the place of another, and none starts as waiting.
unfoldable pub may_follow : Phase → Phase → Bool
may_follow Phase.idle Phase.idle = true
may_follow Phase.idle (Phase.running turn) = true
may_follow Phase.idle (Phase.waiting turn) = false
may_follow (Phase.running turn) Phase.idle = true
may_follow (Phase.running turn) (Phase.running next) = turn == next
may_follow (Phase.running turn) (Phase.waiting next) = turn == next
may_follow (Phase.waiting turn) Phase.idle = true
may_follow (Phase.waiting turn) (Phase.running next) = turn == next
may_follow (Phase.waiting turn) (Phase.waiting next) = turn == next

pub may_follow_refl : (p : Phase) → may_follow p p ≡ true
unfolding may_follow
may_follow_refl Phase.idle = refl
may_follow_refl (Phase.running turn) = eq_refl turn
may_follow_refl (Phase.waiting turn) = eq_refl turn

unfoldable pub phase_of : TurnId → TurnStatus → Phase
phase_of turn_id TurnStatus.waiting_approval = Phase.waiting turn_id
phase_of turn_id _ = Phase.running turn_id

-- The phase of a thread, by the first turn in memory that belongs to it.
unfoldable pub phase_in : ThreadId → Assoc Turn → Phase
unfolding phase_of
phase_in id [] = Phase.idle
phase_in id ((k, turn) ∷ m) =
    let rest = phase_in id m in if turn.thread_id == id then phase_of k turn.status else rest

phase_in-others :
    (id : ThreadId) (m : Assoc Turn) → AllValues (OfOtherThread id) m → phase_in id m ≡ Phase.idle
unfolding phase_in
phase_in-others id [] h = refl
phase_in-others id ((k, u) ∷ m) (n, h) =
    ground (arith, eq_iff u.thread_id id, phase_in-others id m h)

may_end : (k : TurnId) (s : TurnStatus) → may_follow (phase_of k s) Phase.idle ≡ true
unfolding may_follow phase_of
may_end k TurnStatus.running = refl
may_end k TurnStatus.waiting_approval = refl
may_end k TurnStatus.completed = refl
may_end k TurnStatus.failed = refl
may_end k TurnStatus.cancelled = refl

may_begin :
    (k : TurnId) (s : TurnStatus)
    → s ≡ TurnStatus.running
    → may_follow Phase.idle (phase_of k s) ≡ true
unfolding may_follow phase_of
may_begin k s e = ground arith

may_go_on : (k : TurnId) (s t : TurnStatus) → may_follow (phase_of k s) (phase_of k t) ≡ true
unfolding may_follow phase_of
may_go_on k s t = ground (arith, eq_refl k)

phase_in-insert_new :
    (j : ThreadId) (k : TurnId) (turn : Turn) (m : Assoc Turn)
    → turn.status ≡ TurnStatus.running
    → AllValues (OfOtherThread turn.thread_id) m
    → IsExclusive m
    → may_follow (phase_in j m) (phase_in j (insert k turn m)) ≡ true
unfolding phase_in insert
phase_in-insert_new j k turn [] r o e =
    ground (arith, may_begin k turn.status r, may_follow_refl Phase.idle)
phase_in-insert_new j k turn ((i, u) ∷ m) r (n, o) (l, o', e) = ground (
  arith,
  phase_in-insert_new j k turn m r o e,
  phase_in-others j m,
  eq_iff u.thread_id j,
  eq_iff turn.thread_id j,
  eq_iff i k,
  may_follow_refl (phase_in j m),
  may_follow_refl (phase_of i u.status),
  may_end k u.status,
  may_begin k turn.status r,
)

phase_in-insert_found :
    (j : ThreadId) (k : TurnId) (turn u : Turn) (m : Assoc Turn)
    → lookup k m ≡ some u
    → turn.thread_id ≡ u.thread_id
    → may_follow (phase_in j m) (phase_in j (insert k turn m)) ≡ true
unfolding phase_in insert lookup
phase_in-insert_found j k turn u [] f t = cc
phase_in-insert_found j k turn u ((i, v) ∷ m) f t = ground (
  arith,
  phase_in-insert_found j k turn u m,
  eq_iff v.thread_id j,
  eq_iff turn.thread_id j,
  eq_iff i k,
  may_follow_refl (phase_in j m),
  may_follow_refl (phase_of i v.status),
  may_go_on k v.status turn.status,
)

phase_in-remove :
    (j : ThreadId) (k : TurnId) (m : Assoc Turn)
    → IsExclusive m
    → may_follow (phase_in j m) (phase_in j (remove k m)) ≡ true
unfolding phase_in remove
phase_in-remove j k [] e = may_follow_refl Phase.idle
phase_in-remove j k ((i, u) ∷ m) (l, o, e) = ground (
  arith,
  phase_in-remove j k m e,
  phase_in-others j (remove k m),
  AllValues-remove (OfOtherThread u.thread_id) k m o,
  eq_iff u.thread_id j,
  eq_iff i k,
  may_follow_refl (phase_of i u.status),
  may_end i u.status,
)

-- The phase of a thread in a state.
abbrev pub phase : ThreadId → RuntimeCoordinator → Phase
phase id s = phase_in id s.turn_manager.active_turns

module _ (j : ThreadId) (s : RuntimeCoordinator) where
  pub start_turn-may_follow :
      (thread : Thread) (request : TurnStartRequest)
      → IsExclusive s.turn_manager.active_turns
      → may_follow (phase j s) (phase j (start_turn thread request s).1) ≡ true
  unfolding start_turn insert_turn started_turn
  start_turn-may_follow thread request e =
      grind (arith, turn_frames, phase_in-insert_new, others_of_no_running, may_follow_refl)

  pub complete_turn-may_follow :
      (thread_id : ThreadId) (turn_id : TurnId) (message : String)
      → IsExclusive s.turn_manager.active_turns
      → may_follow (phase j s) (phase j (complete_turn thread_id turn_id message s).1) ≡ true
  unfolding complete_turn remove_turn
  complete_turn-may_follow thread_id turn_id message e =
      grind (arith, turn_frames, phase_in-remove, may_follow_refl)

  pub fail_turn-may_follow :
      (thread_id : ThreadId) (turn_id : TurnId) (message : String)
      → IsExclusive s.turn_manager.active_turns
      → may_follow (phase j s) (phase j (fail_turn thread_id turn_id message s).1) ≡ true
  unfolding fail_turn remove_turn
  fail_turn-may_follow thread_id turn_id message e =
      grind (arith, turn_frames, phase_in-remove, may_follow_refl)

  pub cancel_turn-may_follow :
      (request : TurnCancelRequest)
      → IsExclusive s.turn_manager.active_turns
      → may_follow (phase j s) (phase j (cancel_turn request s).1) ≡ true
  unfolding cancel_turn remove_turn
  cancel_turn-may_follow request e = grind (arith, turn_frames, phase_in-remove, may_follow_refl)

  pub mark_running-may_follow :
      (thread_id : ThreadId) (turn_id : TurnId)
      → may_follow (phase j s) (phase j (mark_running thread_id turn_id s).1) ≡ true
  unfolding mark_running put_turn find_turn
  mark_running-may_follow thread_id turn_id =
      grind (arith, turn_frames, phase_in-insert_found, may_follow_refl)

  pub mark_waiting_approval-may_follow :
      (thread_id : ThreadId) (turn_id : TurnId) (reason : String)
      → may_follow (phase j s) (phase j (mark_waiting_approval thread_id turn_id reason s).1) ≡ true
  unfolding mark_waiting_approval put_turn find_turn
  mark_waiting_approval-may_follow thread_id turn_id reason =
      grind (arith, turn_frames, phase_in-insert_found, may_follow_refl)
