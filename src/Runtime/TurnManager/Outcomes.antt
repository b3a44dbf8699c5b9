-- ===== src/Runtime/TurnManager/Outcomes.antt =====
-- What the turn operations do on each branch, and what is left when a file-system call fails.
use liz.Prelude.{
  ℕ, ◌+◌, String, ◌≡◌, ◌≢◌, Bool, true, false, none, some, List, [], ◌∷◌, arith, eq_iff, eq_refl,
  any, unwrap_or, length, length-append, ◌==◌, ◌++◌, if◌then◌else◌,
}
use liz.Text.{format}
use liz.Assoc.{Assoc, lookup, values}
use liz.Assoc.Laws.{lookup-insert, lookup-remove}
use liz.Protocol.Ids.{ThreadId, TurnId, Timestamp}
use liz.Protocol.Thread.{Thread, ThreadStatus}
use liz.Protocol.Turn.{Turn, TurnStatus}
use liz.Protocol.Requests.{TurnStartRequest, TurnCancelRequest}
use liz.Runtime.Error.{ok, err, storage}
use liz.Runtime.State.{RuntimeCoordinator}
use liz.Runtime.Stores.{put_thread, get_thread, append_turn_log, read_turn_log, log_of}
use liz.Runtime.Ids.{now_timestamp, timestamp}
use liz.Runtime.ThreadManager.{thread_not_found}
use liz.Runtime.TurnManager.Frames.{log_turn-active_turns}
use liz.Runtime.TurnManager.{
  is_live, is_running_in, thread_has_running_turn, turn_already_running, turn_not_found,
  turn_thread_mismatch, start_turn, cancel_turn, complete_turn, fail_turn, find_thread, find_turn,
  remove_turn, log_turn, next_sequence_for, recover_sequence, cancelled_thread, with_commitment,
  completed_thread, completed_turn, cancelled_turn,
}

any-lookup :
    (p : Turn → Bool) (k : TurnId) (t : Turn) (m : Assoc Turn)
    → lookup k m ≡ some t
    → p t ≡ true
    → any p (values m) ≡ true
unfolding any lookup
any-lookup p k t [] h q = cc
any-lookup p k t ((j, u) ∷ m) h q = ground (arith, any-lookup p k t m)

any-append_self :
    (commitment : String) (commitments : List String)
    → any (λ item. item == commitment) (commitments ++ commitment ∷ []) ≡ true
unfolding any
any-append_self commitment [] = rw (eq_refl commitment)
any-append_self commitment (c ∷ cs) = ground (arith, any-append_self commitment cs)

-- A thread with a running or waiting turn in memory refuses another turn, and nothing changes.
pub start_turn_refused :
    (thread : Thread) (request : TurnStartRequest) (s : RuntimeCoordinator) (k : TurnId) (t : Turn)
    → lookup k s.turn_manager.active_turns ≡ some t
    → t.thread_id ≡ thread.id
    → is_live t.status ≡ true
    → start_turn thread request s ≡ (err turn_already_running, s)
unfolding start_turn thread_has_running_turn
start_turn_refused thread request s k t h i l = rw (
    any-lookup (is_running_in thread.id) k t s.turn_manager.active_turns h
      (ground (arith, eq_iff t.thread_id thread.id)))

-- Whether the file system answers every call.
abbrev pub Answers : RuntimeCoordinator → Type 0
Answers s = (n : ℕ) → s.stores.faulty n ≡ false

-- The time that the next reading of the clock gives.
abbrev pub next_time : RuntimeCoordinator → Timestamp
next_time s = timestamp (s.ids.clock s.ids.readings)

module _ (id : ThreadId) (turn : TurnId) (now : Timestamp) (event summary : String)
    (s : RuntimeCoordinator) where
  pub log_turn-ok : Answers s → (log_turn id turn now event summary s).0 ≡ ok tt
  unfolding log_turn next_sequence_for recover_sequence read_turn_log append_turn_log
  log_turn-ok a = rw (a s.stores.calls, a (s.stores.calls + 1))

  pub log_turn-threads :
      (log_turn id turn now event summary s).1.stores.paths.threads ≡ s.stores.paths.threads
  unfolding log_turn next_sequence_for recover_sequence read_turn_log append_turn_log
  log_turn-threads = ground arith

  pub log_turn-faulty :
      (n : ℕ)
      → s.stores.faulty n ≡ false
      → (log_turn id turn now event summary s).1.stores.faulty n ≡ false
  unfolding log_turn next_sequence_for recover_sequence read_turn_log append_turn_log
  log_turn-faulty n h = ground arith

  pub log_turn-length :
      (j : ThreadId)
      → id ≡ j
      → Answers s
      → length
          (unwrap_or [] (lookup j (log_turn id turn now event summary s).1.stores.paths.turn_logs))
        ≡ length (unwrap_or [] (lookup j s.stores.paths.turn_logs)) + 1
  unfolding log_turn next_sequence_for recover_sequence read_turn_log append_turn_log log_of
  log_turn-length j i a = grind (arith, lookup-insert, length-append, eq_refl)

pub ruleset log_turn_laws =
    (log_turn-ok, log_turn-threads, log_turn-faulty, log_turn-length, log_turn-active_turns)

module _ (thread_id : ThreadId) (turn_id : TurnId) (message : String) (s : RuntimeCoordinator)
    (thread : Thread) (turn : Turn) where
  -- With a file system that answers, completing a turn that is in memory, for a thread that is on
  -- file under its own id, succeeds: the answer is the turn as completed, at the time of the clock
  -- and with the final message; the turn is out of memory, the thread is on file as active with the
  -- final message as its summary, with no interruption and with the turn as its latest, and else as it
  -- was; every other thread on file stays, and the log of the thread has one more entry.
  pub complete_turn_lem :
      (j : ThreadId)
      → Answers s
      → lookup thread_id s.stores.paths.threads ≡ some thread
      → thread.id ≡ thread_id
      → lookup turn_id s.turn_manager.active_turns ≡ some turn
      → let (result, after) = complete_turn thread_id turn_id message s in
        let done : Turn = record turn {
          status = TurnStatus.completed;
          ended_at = some (next_time s);
          summary = some message;
        } in
        let active : Thread = record thread {
          status = ThreadStatus.active;
          updated_at = next_time s;
          active_summary = some message;
          last_interruption = none;
          latest_turn_id = some turn.id;
        } in
        (result ≡ ok done)
        × (lookup turn_id after.turn_manager.active_turns ≡ none)
        × (lookup thread_id after.stores.paths.threads ≡ some active)
        × (j ≢ thread_id → lookup j after.stores.paths.threads ≡ lookup j s.stores.paths.threads)
        × (length (log_of thread_id after.stores.paths)
            ≡ length (log_of thread_id s.stores.paths) + 1)
  unfolding complete_turn find_thread find_turn remove_turn now_timestamp get_thread put_thread
      completed_thread completed_turn log_of
  complete_turn_lem j a f i m =
      grind (arith, lookup-insert, lookup-remove, eq_refl, eq_iff thread_id j, log_turn_laws)

  -- When the append to the log fails while a turn in memory is completed, for a thread on file, the
  -- caller gets a storage error and the files stay as they were, but the turn is lost: if the next
  -- call of the file system succeeds, neither completing nor failing it again finds the turn.
  pub complete_turn_lost :
      (again : String)
      → s.stores.faulty s.stores.calls ≡ false
      → s.stores.faulty (s.stores.calls + 1) ≡ false
      → s.stores.faulty (s.stores.calls + 1 + 1) ≡ true
      → s.stores.faulty (s.stores.calls + 1 + 1 + 1) ≡ false
      → lookup thread_id s.stores.paths.threads ≡ some thread
      → lookup turn_id s.turn_manager.active_turns ≡ some turn
      → let (result, after) = complete_turn thread_id turn_id message s in
        (result ≡ err storage)
        × (after.stores.paths ≡ s.stores.paths)
        × ((complete_turn thread_id turn_id again after).0 ≡ err turn_not_found)
        × ((fail_turn thread_id turn_id again after).0 ≡ err turn_not_found)
  unfolding complete_turn fail_turn find_thread find_turn remove_turn now_timestamp get_thread
      log_turn next_sequence_for recover_sequence read_turn_log append_turn_log completed_thread
  complete_turn_lost again c0 c1 c2 c3 f m = grind (arith, lookup-remove, eq_refl)

-- With a file system that answers, a cancel request is refused when the thread is not on file, and
-- when it is on file and the turn is not in memory or belongs to another thread; in the last two
-- cases the turns in memory and the files stay as they were.
pub cancel_turn_refused :
    (request : TurnCancelRequest) (s : RuntimeCoordinator) (turn : Turn)
    → Answers s
    → let (result, after) = cancel_turn request s in
      (lookup request.thread_id s.stores.paths.threads ≡ none → result ≡ err thread_not_found)
      × (lookup request.thread_id s.stores.paths.threads ≢ none
          → lookup request.turn_id s.turn_manager.active_turns ≡ none
          → (result ≡ err turn_not_found)
            × (after.turn_manager ≡ s.turn_manager)
            × (after.stores.paths ≡ s.stores.paths))
      × (lookup request.thread_id s.stores.paths.threads ≢ none
          → lookup request.turn_id s.turn_manager.active_turns ≡ some turn
          → turn.thread_id ≢ request.thread_id
          → (result ≡ err turn_thread_mismatch)
            × (after.turn_manager ≡ s.turn_manager)
            × (after.stores.paths ≡ s.stores.paths))
unfolding cancel_turn find_thread find_turn get_thread
cancel_turn_refused request s turn a = grind (arith, eq_iff turn.thread_id request.thread_id)

-- With a file system that answers, cancelling a turn in memory on its thread, which is on file
-- under its own id, succeeds: the answer is the turn as cancelled, at the time of the clock; the turn
-- is out of memory, and the thread is on file as interrupted, with what was worked on as its summary
-- and its last interruption, with the turn as its latest and else as it was. The commitment to resume
-- the turn's goal is among the pending ones, and was added behind the others only if it was not.
pub cancel_turn_lem :
    (request : TurnCancelRequest) (s : RuntimeCoordinator) (thread : Thread) (turn : Turn)
    → Answers s
    → lookup request.thread_id s.stores.paths.threads ≡ some thread
    → thread.id ≡ request.thread_id
    → lookup request.turn_id s.turn_manager.active_turns ≡ some turn
    → turn.thread_id ≡ request.thread_id
    → let (result, after) = cancel_turn request s in
      let goal = unwrap_or "current turn" turn.goal in
      let resume = format ("Resume interrupted work: " ∷ goal ∷ []) in
      let interruption = format ("Interrupted while working on: " ∷ goal ∷ []) in
      let known = any (λ item. item == resume) thread.pending_commitments in
      let pending =
        if known then thread.pending_commitments else thread.pending_commitments ++ resume ∷ [] in
      let cancelled : Turn = record turn {
        status = TurnStatus.cancelled;
        ended_at = some (next_time s);
        summary = some (format ("Interrupted before finishing: " ∷ goal ∷ []));
      } in
      let interrupted : Thread = record thread {
        status = ThreadStatus.interrupted;
        updated_at = next_time s;
        active_summary = some interruption;
        last_interruption = some interruption;
        pending_commitments = pending;
        latest_turn_id = some turn.id;
      } in
      (result ≡ ok cancelled)
      × (lookup request.turn_id after.turn_manager.active_turns ≡ none)
      × (lookup request.thread_id after.stores.paths.threads ≡ some interrupted)
      × (any (λ item. item == resume) pending ≡ true)
unfolding cancel_turn find_thread find_turn remove_turn now_timestamp get_thread put_thread
    cancelled_thread cancelled_turn with_commitment
cancel_turn_lem request s thread turn a f i m t =
    grind (arith, lookup-insert, lookup-remove, eq_refl, any-append_self, log_turn_laws)
