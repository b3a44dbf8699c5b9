-- ===== src/Runtime/TurnManager.antt =====
-- `TurnManager` in crates/liz-app-server/src/runtime/turn_manager.rs.
pub mod Frames
pub mod Exclusive
pub mod Phases
pub mod Sequence
pub mod Outcomes
pub mod Waiting
use liz.Prelude.{
  ℕ, ◌+◌, ◌%◌, ◌^◌, String, Bool, true, false, not, ◌&&◌, Option, none, some, List, [], ◌∷◌, ◌++◌,
  ◌==◌, retain, any, last?, if◌then◌else◌, unwrap_or,
}
use liz.Text.{trim, contains, format}
use liz.Assoc.{Assoc, lookup, insert, remove, values}
use liz.Protocol.Ids.{ThreadId, TurnId, Timestamp}
use liz.Protocol.Thread.{Thread, ThreadStatus}
use liz.Protocol.Turn.{Turn, TurnStatus, TurnKind}
use liz.Protocol.Requests.{TurnInputKind, TurnStartRequest, TurnCancelRequest}
use liz.Storage.{TurnLogEntry}
use liz.Runtime.Error.{RuntimeError, not_found, invalid_state}
use liz.Runtime.State.{RuntimeCoordinator, TurnManager}
use liz.Runtime.Exec.{Exec, pure, raise, gets, modify, ok_or, ◌>>=◌, ◌>>◌}
use liz.Runtime.Stores.{put_thread, get_thread, append_turn_log, read_turn_log}
use liz.Runtime.Ids.{now_timestamp, next_turn_id}
use liz.Runtime.ThreadManager.{thread_not_found, update_thread_after_turn}

abbrev pub turn_not_found : RuntimeError
turn_not_found = not_found "turn_not_found" "turn is not running"

abbrev pub turn_already_running : RuntimeError
turn_already_running = invalid_state "turn_already_running" "thread already has a running turn"

abbrev pub turn_thread_mismatch : RuntimeError
turn_thread_mismatch =
    invalid_state "turn_thread_mismatch" "turn does not belong to the requested thread"

abbrev pub is_live : TurnStatus → Bool
is_live TurnStatus.running = true
is_live TurnStatus.waiting_approval = true
is_live _ = false

unfoldable pub map_input_kind : TurnInputKind → TurnKind
map_input_kind TurnInputKind.user_message = TurnKind.user
map_input_kind TurnInputKind.resume_command = TurnKind.user
map_input_kind TurnInputKind.steering_note = TurnKind.assistant

-- The test of one turn in `thread_has_running_turn`.
abbrev pub is_running_in : ThreadId → Turn → Bool
is_running_in thread_id turn = turn.thread_id == thread_id && is_live turn.status

unfoldable pub thread_has_running_turn : ThreadId → TurnManager → Bool
unfolding any
thread_has_running_turn thread_id tm = any (is_running_in thread_id) (values tm.active_turns)

-- The sequence number of the last entry of a log.
unfoldable pub last_sequence : List TurnLogEntry → ℕ
last_sequence entries = elim (last? entries) [ none ↦ 0 | some entry ↦ entry.sequence ]

unfoldable pub recover_sequence : ThreadId → Exec ℕ
unfolding ◌>>=◌ last_sequence
recover_sequence thread_id = do entries ← read_turn_log thread_id; pure (last_sequence entries)

-- `*sequence += 1` on a u64.
unfoldable pub bump : ThreadId → ℕ → TurnManager → ℕ
bump thread_id recovered tm = (unwrap_or recovered (lookup thread_id tm.next_sequence) + 1) % 2 ^ 64

unfoldable pub next_sequence_for : ThreadId → Exec ℕ
unfolding ◌>>=◌ bump
next_sequence_for thread_id = do
  recovered ← recover_sequence thread_id
  sequence ← gets (λ s. bump thread_id recovered s.turn_manager)
  modify (λ s. record s {
    turn_manager = record (s.turn_manager) {
      next_sequence = insert thread_id sequence s.turn_manager.next_sequence;
    };
  })
  pure sequence

unfoldable pub insert_turn : Turn → Exec (Unit {0})
unfolding ◌>>=◌
insert_turn turn = modify (λ s. record s {
  turn_manager = record (s.turn_manager) {
    active_turns = insert turn.id turn s.turn_manager.active_turns;
  };
})

-- HashMap::insert under the key of the entry that `get_mut` found.
unfoldable pub put_turn : TurnId → Turn → Exec (Unit {0})
unfolding ◌>>=◌
put_turn turn_id turn = modify (λ s. record s {
  turn_manager = record (s.turn_manager) {
    active_turns = insert turn_id turn s.turn_manager.active_turns;
  };
})

unfoldable pub remove_turn : TurnId → Exec (Unit {0})
unfolding ◌>>=◌
remove_turn turn_id = modify (λ s. record s {
  turn_manager = record (s.turn_manager) {
    active_turns = remove turn_id s.turn_manager.active_turns;
  };
})

-- `self.active_turns.get(turn_id)` with the error when it is not there.
unfoldable pub find_turn : TurnId → Exec Turn
unfolding ◌>>=◌
find_turn turn_id = do
  found ← gets (λ s. lookup turn_id s.turn_manager.active_turns)
  ok_or found turn_not_found

unfoldable pub find_thread : ThreadId → Exec Thread
unfolding ◌>>=◌
find_thread thread_id = do found ← get_thread thread_id; ok_or found thread_not_found

-- One entry of the log, with the next sequence number of its thread.
unfoldable pub log_turn : ThreadId → TurnId → Timestamp → String → String → Exec (Unit {0})
unfolding ◌>>=◌
log_turn thread_id turn_id recorded_at event summary = do
  sequence ← next_sequence_for thread_id
  append_turn_log (record {
    thread_id = thread_id;
    sequence = sequence;
    turn_id = some turn_id;
    recorded_at = recorded_at;
    event = event;
    summary = summary;
    artifact_ids = [];
  })

unfoldable pub started_turn : Thread → TurnStartRequest → Timestamp → TurnId → Turn
unfolding map_input_kind
started_turn thread request now id =
    let goal = trim request.input in
    record {
      id = id;
      thread_id = thread.id;
      kind = map_input_kind request.input_kind;
      status = TurnStatus.running;
      started_at = now;
      ended_at = none;
      goal = some goal;
      summary = some (format ("Started turn for: " ∷ goal ∷ []));
      checkpoint_before = thread.latest_checkpoint_id;
      checkpoint_after = none;
    }

unfoldable pub started_thread : Thread → TurnStartRequest → Timestamp → TurnId → Thread
started_thread thread request now id =
    let goal = trim request.input in
    record thread {
      status = ThreadStatus.active;
      updated_at = now;
      active_goal = some goal;
      active_summary = some (format ("Currently working on: " ∷ goal ∷ []));
      last_interruption = none;
      latest_turn_id = some id;
      pending_commitments =
          retain (λ commitment. not (contains commitment goal)) thread.pending_commitments;
    }

unfoldable pub start_turn : Thread → TurnStartRequest → Exec Turn
unfolding ◌>>=◌ thread_has_running_turn
start_turn thread request = do
  running ← gets (λ s. thread_has_running_turn thread.id s.turn_manager)
  if running then raise turn_already_running else do
    now ← now_timestamp
    id ← next_turn_id
    let turn = started_turn thread request now id
    log_turn thread.id turn.id now "turn_started" (unwrap_or "" turn.summary)
    update_thread_after_turn (started_thread thread request now id)
    insert_turn turn
    pure turn

-- The goal of a turn, as `cancel_turn` words it.
abbrev pub goal_of : Turn → String
goal_of turn = unwrap_or "current turn" turn.goal

unfoldable pub cancelled_turn : Turn → Timestamp → Turn
cancelled_turn turn ended_at = record turn {
  status = TurnStatus.cancelled;
  ended_at = some ended_at;
  summary = some (format ("Interrupted before finishing: " ∷ goal_of turn ∷ []));
}

abbrev pub resume_commitment : Turn → String
resume_commitment turn = format ("Resume interrupted work: " ∷ goal_of turn ∷ [])

unfoldable pub with_commitment : String → List String → List String
unfolding any
with_commitment commitment commitments =
    if any (λ item. item == commitment) commitments
    then commitments
    else commitments ++ commitment ∷ []

unfoldable pub cancelled_thread : Thread → Turn → Timestamp → Thread
unfolding with_commitment
cancelled_thread thread turn ended_at =
    let interruption = format ("Interrupted while working on: " ∷ goal_of turn ∷ []) in
    record thread {
      status = ThreadStatus.interrupted;
      updated_at = ended_at;
      active_summary = some interruption;
      last_interruption = some interruption;
      pending_commitments = with_commitment (resume_commitment turn) thread.pending_commitments;
      latest_turn_id = some turn.id;
    }

unfoldable pub cancel_turn : TurnCancelRequest → Exec Turn
unfolding ◌>>=◌
cancel_turn request = do
  thread ← find_thread request.thread_id
  turn ← find_turn request.turn_id
  if not (turn.thread_id == request.thread_id) then raise turn_thread_mismatch else do
    remove_turn request.turn_id
    ended_at ← now_timestamp
    let cancelled = cancelled_turn turn ended_at
    let stopped = cancelled_thread thread turn ended_at
    log_turn stopped.id cancelled.id ended_at "turn_cancelled" (unwrap_or "" cancelled.summary)
    put_thread stopped
    pure cancelled

unfoldable pub read_turn : TurnId → TurnManager → Option Turn
read_turn turn_id tm = lookup turn_id tm.active_turns

unfoldable pub waiting_thread : Thread → Turn → String → Timestamp → Thread
waiting_thread thread turn reason recorded_at = record thread {
  status = ThreadStatus.waiting_approval;
  updated_at = recorded_at;
  active_summary = some (format ("Waiting approval: " ∷ reason ∷ []));
  latest_turn_id = some turn.id;
}

unfoldable pub mark_waiting_approval : ThreadId → TurnId → String → Exec Turn
unfolding ◌>>=◌
mark_waiting_approval thread_id turn_id reason = do
  thread ← find_thread thread_id
  recorded_at ← now_timestamp
  found ← find_turn turn_id
  let turn : Turn = record found { status = TurnStatus.waiting_approval; summary = some reason }
  put_turn turn_id turn
  let waiting = waiting_thread thread turn reason recorded_at
  log_turn waiting.id turn.id recorded_at "approval_wait" reason
  put_thread waiting
  pure turn

unfoldable pub running_thread : Thread → Turn → Timestamp → Thread
running_thread thread turn recorded_at = record thread {
  status = ThreadStatus.active;
  updated_at = recorded_at;
  active_summary = some (elim turn.goal [
    | none ↦ "Currently working on the requested turn"
    | some goal ↦ format ("Currently working on: " ∷ goal ∷ [])
  ]);
  latest_turn_id = some turn.id;
}

unfoldable pub mark_running : ThreadId → TurnId → Exec Turn
unfolding ◌>>=◌
mark_running thread_id turn_id = do
  thread ← find_thread thread_id
  recorded_at ← now_timestamp
  found ← find_turn turn_id
  let turn : Turn = record found { status = TurnStatus.running }
  put_turn turn_id turn
  let running = running_thread thread turn recorded_at
  log_turn running.id turn.id recorded_at "approval_resolved" "Approval granted; resuming turn"
  put_thread running
  pure turn

unfoldable pub completed_turn : Turn → String → Timestamp → Turn
completed_turn turn final_message ended_at = record turn {
  status = TurnStatus.completed;
  ended_at = some ended_at;
  summary = some final_message;
}

unfoldable pub completed_thread : Thread → Turn → String → Timestamp → Thread
completed_thread thread turn final_message ended_at = record thread {
  status = ThreadStatus.active;
  updated_at = ended_at;
  active_summary = some final_message;
  last_interruption = none;
  latest_turn_id = some turn.id;
}

unfoldable pub complete_turn : ThreadId → TurnId → String → Exec Turn
unfolding ◌>>=◌
complete_turn thread_id turn_id final_message = do
  thread ← find_thread thread_id
  removed ← find_turn turn_id
  remove_turn turn_id
  ended_at ← now_timestamp
  let turn = completed_turn removed final_message ended_at
  let completed = completed_thread thread turn final_message ended_at
  log_turn completed.id turn.id ended_at "turn_completed" final_message
  put_thread completed
  pure turn

unfoldable pub failed_turn : Turn → String → Timestamp → Turn
failed_turn turn message ended_at = record turn {
  status = TurnStatus.failed;
  ended_at = some ended_at;
  summary = some message;
}

unfoldable pub failed_thread : Thread → Turn → String → Timestamp → Thread
failed_thread thread turn message ended_at = record thread {
  status = ThreadStatus.failed;
  updated_at = ended_at;
  active_summary = some (format ("Turn failed: " ∷ message ∷ []));
  latest_turn_id = some turn.id;
}

unfoldable pub fail_turn : ThreadId → TurnId → String → Exec Turn
unfolding ◌>>=◌
fail_turn thread_id turn_id message = do
  thread ← find_thread thread_id
  removed ← find_turn turn_id
  remove_turn turn_id
  ended_at ← now_timestamp
  let turn = failed_turn removed message ended_at
  let failed = failed_thread thread turn message ended_at
  log_turn failed.id turn.id ended_at "turn_failed" message
  put_thread failed
  pure turn
