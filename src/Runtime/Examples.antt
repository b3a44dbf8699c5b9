-- ===== src/Runtime/Examples.antt =====
-- Runs of the turn operations and of the coordinator on small states.
use liz.Prelude.{
  ℕ, ◌+◌, String, ◌≡◌, ◌≢◌, refl, Bool, true, false, none, some, List, [], ◌∷◌, arith, eqb, any,
  ◌==◌, length,
}
use liz.Assoc.{lookup, insert}
use liz.Protocol.Thread.{Thread, ThreadStatus}
use liz.Protocol.Turn.{Turn, TurnStatus, TurnKind}
use liz.Protocol.Approval.{ApprovalDecision, ApprovalStatus, ApprovalRequest}
use liz.Protocol.Checkpoint.{Checkpoint}
use liz.Protocol.Requests.{
  TurnInputKind, ThreadStartRequest, TurnStartRequest, TurnCancelRequest, ThreadForkRequest,
  ApprovalRespondRequest,
}
use liz.Prelude.{Option}
use liz.Storage.{no_files}
use liz.Runtime.Error.{ok, err, storage, is_ok}
use liz.Runtime.State.{RuntimeCoordinator, RuntimeStores, idle}
use liz.Runtime.Stores.{
  log_of, memory_of, read_turn_log, append_turn_log, get_thread, put_thread, read_node_registry,
  read_global_memory, write_global_memory,
}
use liz.Text.{trim}
use liz.Text.Digits.{to_hex, to_decimal, to_padded}
use liz.Runtime.Coordinator
use liz.Runtime.NodeRegistry.{LocalHost}
use liz.Runtime.Ids.{identifier, timestamp, next_value, now_timestamp, next_thread_id, next_turn_id}
use liz.Runtime.Ids.Distinct.{next_value-distinct}
use liz.Runtime.ThreadManager
use liz.Runtime.ThreadManager.{thread_not_found}
use liz.Runtime.ThreadManager.Active.{lists, HasNoRepeats, with_active_lem}
use liz.Runtime.ThreadManager.Outcomes.{fork_thread_lem}
use liz.Runtime.TurnManager
use liz.Runtime.TurnManager.{last_sequence}
use liz.Runtime.TurnManager.Outcomes.{
  next_time, start_turn_refused, complete_turn_lem, complete_turn_lost, cancel_turn_lem,
  cancel_turn_refused,
}
use liz.Runtime.TurnManager.Waiting.{mark_running_lem}
use liz.Runtime.TurnManager.Sequence.{HasNumberedLog, counter, entries_of}
use liz.Runtime.PolicyEngine.{PolicyDecision, RetrievalScope, evaluate}
use liz.Runtime.Coordinator.{
  ToolRecord, record_tool_execution, require_approval_for_turn, decided, approval_for,
}
use liz.Runtime.Coordinator.Operations.{
  Operation, start_thread, start_turn, perform, performs, performs-one_turn,
}
use liz.Runtime.TurnManager.Phases.{may_follow, phase}
use liz.Runtime.Coordinator.Machine.{perform-refines}
use liz.Runtime.Coordinator.Numbering.{records_tool, perform-HasNumberedLog}
use liz.Runtime.Coordinator.Tools.{record_tool_execution-repeats}
use liz.Runtime.Coordinator.Approvals.{is_some, require_approval_for_turn_lem}

abbrev device : LocalHost
device = record { version = "0.1.0"; os = "linux"; hostname = none }

abbrev calm : ℕ → Bool
calm n = false

abbrev ticks : ℕ → ℕ
ticks n = n

abbrev empty_disk : (ℕ → Bool) → RuntimeStores
empty_disk faulty = record { paths = no_files; faulty = faulty; calls = 0 }

abbrev essay : Thread
essay = record {
  id = "t1";
  title = "Essay";
  status = ThreadStatus.active;
  created_at = "unix:0.000000000";
  updated_at = "unix:0.000000000";
  active_goal = none;
  active_summary = none;
  last_interruption = none;
  workspace_ref = none;
  workspace_mount_id = none;
  pending_commitments = [];
  latest_turn_id = none;
  latest_checkpoint_id = none;
  parent_thread_id = none;
}

abbrev other_id : String
other_id = "t2"

abbrev drafting : Turn
drafting = record {
  id = "u1";
  thread_id = "t1";
  kind = TurnKind.user;
  status = TurnStatus.running;
  started_at = "unix:0.000000000";
  ended_at = none;
  goal = some "draft";
  summary = none;
  checkpoint_before = none;
  checkpoint_after = none;
}

-- A thread on file with a turn in memory.
abbrev busy : (ℕ → Bool) → RuntimeCoordinator
busy faulty =
    let empty = idle ticks (empty_disk faulty) in
    record empty {
      stores = record (empty.stores) { paths = record no_files { threads = ("t1", essay) ∷ [] } };
      turn_manager = record { active_turns = ("u1", drafting) ∷ []; next_sequence = [] };
    }

abbrev new_thread : ThreadStartRequest
new_thread = record {
  title = some "Essay";
  initial_goal = none;
  workspace_ref = none;
  workspace_mount_id = none;
}

abbrev asks : String → TurnStartRequest
asks id = record {
  thread_id = id;
  input = " draft ";
  input_kind = TurnInputKind.user_message;
  channel = none;
  participant = none;
  interaction_context = none;
}

abbrev three_operations : List Operation
three_operations =
    start_thread new_thread ∷ start_turn (asks "thread_1_1") ∷ start_turn (asks "thread_1_1") ∷ []

abbrev started : Turn
started = record {
  id = "turn_3_2";
  thread_id = "thread_1_1";
  kind = TurnKind.user;
  status = TurnStatus.running;
  started_at = "unix:0.000000002";
  ended_at = none;
  goal = some "draft";
  summary = some "Started turn for: draft";
  checkpoint_before = none;
  checkpoint_after = none;
}

performs-one_turn_example :
    (started.id ≡ started.id) × (TurnManager.is_live TurnStatus.running ≡ true)
unfolding Coordinator.new performs TurnManager.read_turn lookup insert Coordinator.start_thread
    Coordinator.resolve_thread_workspace_mount ThreadManager.start_thread
    ThreadManager.sync_active_thread_ids ThreadManager.update_thread_after_turn
    Coordinator.start_turn TurnManager.find_thread TurnManager.start_turn TurnManager.started_turn
    TurnManager.started_thread TurnManager.log_turn TurnManager.next_sequence_for
    TurnManager.recover_sequence TurnManager.insert_turn read_turn_log append_turn_log get_thread
    put_thread read_global_memory write_global_memory now_timestamp next_thread_id next_turn_id
    identifier timestamp to_hex to_decimal to_padded trim read_node_registry
performs-one_turn_example =
    performs-one_turn three_operations device ticks (empty_disk calm) "turn_3_2" "turn_3_2" started
      started refl refl refl

perform-HasNumberedLog_example : HasNumberedLog "t1" (perform (start_turn (asks "t1")) (busy calm))
unfolding counter records_tool lookup last_sequence
perform-HasNumberedLog_example =
    perform-HasNumberedLog (start_turn (asks "t1")) "t1" (busy calm) refl (λ id. omega arith)
      (record { increasing = tt; ahead = omega arith })

start_turn_refused_example :
    TurnManager.start_turn essay (asks "t1") (busy calm)
    ≡ (err TurnManager.turn_already_running, busy calm)
unfolding lookup
start_turn_refused_example =
    start_turn_refused essay (asks "t1") (busy calm) "u1" drafting refl refl refl

complete_turn_lem_example :
    let (result, after) = TurnManager.complete_turn "t1" "u1" "done" (busy calm) in
    let done : Turn = record drafting {
      status = TurnStatus.completed;
      ended_at = some (next_time (busy calm));
      summary = some "done";
    } in
    let active : Thread = record essay {
      status = ThreadStatus.active;
      updated_at = next_time (busy calm);
      active_summary = some "done";
      last_interruption = none;
      latest_turn_id = some "u1";
    } in
    (result ≡ ok done)
    × (lookup "u1" after.turn_manager.active_turns ≡ none)
    × (lookup "t1" after.stores.paths.threads ≡ some active)
    × (other_id ≢ "t1"
        → lookup "t2" after.stores.paths.threads ≡ lookup "t2" (busy calm).stores.paths.threads)
    × (length (log_of "t1" after.stores.paths) ≡ length (log_of "t1" (busy calm).stores.paths) + 1)
unfolding lookup
complete_turn_lem_example =
    complete_turn_lem "t1" "u1" "done" (busy calm) essay drafting "t2" (λ n. refl) refl refl refl

-- The file system fails at its third call.
abbrev third_fails : ℕ → Bool
third_fails n = eqb n 2

complete_turn_lost_example :
    let (result, after) = TurnManager.complete_turn "t1" "u1" "done" (busy third_fails) in
    (result ≡ err storage)
    × (after.stores.paths ≡ (busy third_fails).stores.paths)
    × ((TurnManager.complete_turn "t1" "u1" "again" after).0 ≡ err TurnManager.turn_not_found)
    × ((TurnManager.fail_turn "t1" "u1" "again" after).0 ≡ err TurnManager.turn_not_found)
unfolding lookup
complete_turn_lost_example =
    complete_turn_lost "t1" "u1" "done" (busy third_fails) essay drafting "again" refl refl refl
      refl refl refl

abbrev stop : TurnCancelRequest
stop = record { thread_id = "t1"; turn_id = "u1" }

cancel_turn_lem_example :
    let (result, after) = TurnManager.cancel_turn stop (busy calm) in
    let pending : List String = "Resume interrupted work: draft" ∷ [] in
    let cancelled : Turn = record drafting {
      status = TurnStatus.cancelled;
      ended_at = some (next_time (busy calm));
      summary = some "Interrupted before finishing: draft";
    } in
    let interrupted : Thread = record essay {
      status = ThreadStatus.interrupted;
      updated_at = next_time (busy calm);
      active_summary = some "Interrupted while working on: draft";
      last_interruption = some "Interrupted while working on: draft";
      pending_commitments = pending;
      latest_turn_id = some "u1";
    } in
    (result ≡ ok cancelled)
    × (lookup "u1" after.turn_manager.active_turns ≡ none)
    × (lookup "t1" after.stores.paths.threads ≡ some interrupted)
    × (any (λ item. item == "Resume interrupted work: draft") pending ≡ true)
unfolding lookup any
cancel_turn_lem_example =
    cancel_turn_lem stop (busy calm) essay drafting (λ n. refl) refl refl refl refl

abbrev stop_other : TurnCancelRequest
stop_other = record { thread_id = "t1"; turn_id = "u2" }

cancel_turn_refused_example :
    let (result, after) = TurnManager.cancel_turn stop_other (busy calm) in
    (lookup "t1" (busy calm).stores.paths.threads ≡ none → result ≡ err thread_not_found)
    × (lookup "t1" (busy calm).stores.paths.threads ≢ none
        → lookup "u2" (busy calm).turn_manager.active_turns ≡ none
        → (result ≡ err TurnManager.turn_not_found)
          × (after.turn_manager ≡ (busy calm).turn_manager)
          × (after.stores.paths ≡ (busy calm).stores.paths))
    × (lookup "t1" (busy calm).stores.paths.threads ≢ none
        → lookup "u2" (busy calm).turn_manager.active_turns ≡ some drafting
        → drafting.thread_id ≢ "t1"
        → (result ≡ err TurnManager.turn_thread_mismatch)
          × (after.turn_manager ≡ (busy calm).turn_manager)
          × (after.stores.paths ≡ (busy calm).stores.paths))
cancel_turn_refused_example = cancel_turn_refused stop_other (busy calm) drafting (λ n. refl)

abbrev reading : ToolRecord
reading = record {
  thread_id = "t1";
  turn_id = some "u1";
  node_id = none;
  workspace_mount_id = none;
  tool_name = "workspace.read";
  summary = "one file";
  artifacts = [];
}

abbrev locate : String → String
locate id = id

-- The turn manager gave number 0 to the empty log of the thread.
abbrev counted : RuntimeCoordinator
counted = record (busy calm) {
  turn_manager = record (busy calm).turn_manager { next_sequence = ("t1", 0) ∷ [] };
}

record_tool_execution-repeats_example :
    let recorded = (record_tool_execution locate reading counted).1 in
    let after = (TurnManager.log_turn "t1" "u1" "now" "turn_completed" "done" recorded).1 in
    TurnManager.last_sequence (entries_of "t1" after.stores.paths.turn_logs)
    ≡ TurnManager.last_sequence (entries_of "t1" recorded.stores.paths.turn_logs)
unfolding lookup
record_tool_execution-repeats_example =
    record_tool_execution-repeats locate reading "u1" "now" "turn_completed" "done" counted
      (λ n. refl) refl

abbrev risky : PolicyDecision
unfolding evaluate
risky = evaluate "delete the notes" RetrievalScope.focused

require_approval_for_turn_lem_example :
    let (result, after) = require_approval_for_turn "t1" "u1" risky (busy calm) in
    let waiting : Turn = record drafting {
      status = TurnStatus.waiting_approval;
      summary = some risky.reason;
    } in
    (is_ok result ≡ true)
    × (lookup "u1" after.turn_manager.active_turns ≡ some waiting)
    × ((checkpoint : Option Checkpoint) (approval : ApprovalRequest)
        → result ≡ ok (checkpoint, approval)
        → (is_some checkpoint ≡ risky.requires_checkpoint)
          × ((c : Checkpoint)
              → checkpoint ≡ some c
              → (lookup c.id after.stores.paths.checkpoints ≡ some c)
                × (c.thread_id ≡ "t1")
                × (c.turn_id ≡ "u1"))
          × (lookup approval.id after.approvals ≡ some approval)
          × (approval.status ≡ ApprovalStatus.pending)
          × (approval.turn_id ≡ "u1"))
unfolding lookup
require_approval_for_turn_lem_example =
    require_approval_for_turn_lem "t1" "u1" risky (busy calm) drafting (λ n. refl)
      (essay, refl, refl) refl

mark_running_lem_example :
    let (result, after) = TurnManager.mark_running "t1" "u1" (busy calm) in
    let running : Turn = record drafting { status = TurnStatus.running } in
    let active : Thread = record essay {
      status = ThreadStatus.active;
      updated_at = next_time (busy calm);
      active_summary = some "Currently working on: draft";
      latest_turn_id = some "u1";
    } in
    (result ≡ ok running)
    × (lookup "u1" after.turn_manager.active_turns ≡ some running)
    × (lookup "t1" after.stores.paths.threads ≡ some active)
unfolding lookup
mark_running_lem_example =
    mark_running_lem "t1" "u1" (busy calm) essay drafting (λ n. refl) refl refl refl

abbrev yes : ApprovalRespondRequest
yes = record { approval_id = "a1"; decision = ApprovalDecision.approve_once }

abbrev asked : ApprovalRequest
asked = approval_for "t1" "u1" risky "a1"

abbrev pending : RuntimeCoordinator
pending = record (busy calm) { approvals = ("a1", asked) ∷ [] }

abbrev split : ThreadForkRequest
split = record { thread_id = "t1"; title = none; fork_reason = some "a second ending" }

fork_thread_lem_example :
    let (result, after) = ThreadManager.fork_thread split (busy calm) in
    let child = ThreadManager.forked_thread split essay (identifier "thread" 1 1) (timestamp 0) in
    (result ≡ ok child)
    × (lookup (identifier "thread" 1 1) after.stores.paths.threads ≡ some child)
    × (essay.id ≢ identifier "thread" 1 1
        → lookup "t1" after.stores.paths.threads ≡ lookup "t1" (busy calm).stores.paths.threads)
    × ((memory_of after.stores.paths).active_thread_ids
        ≡ ThreadManager.with_active
            (identifier "thread" 1 1)
            true
            (memory_of (busy calm).stores.paths).active_thread_ids)
unfolding lookup
fork_thread_lem_example = fork_thread_lem split (busy calm) essay "t1" (λ n. refl) refl

with_active_lem_example :
    let ids : List String = "t1" ∷ "t2" ∷ [] in
    (lists "t1" (ThreadManager.with_active "t1" true ids) ≡ true)
    × (other_id ≢ "t1" → lists "t2" (ThreadManager.with_active "t1" true ids) ≡ lists "t2" ids)
    × (HasNoRepeats ids → HasNoRepeats (ThreadManager.with_active "t1" true ids))
with_active_lem_example = with_active_lem "t1" true ("t1" ∷ "t2" ∷ []) "t2"

next_value-distinct_example :
    (next_value "thread" (idle ticks (empty_disk calm))).0
    ≢ (next_value "turn" (next_value "thread" (idle ticks (empty_disk calm))).1).0
unfolding next_value
next_value-distinct_example =
    next_value-distinct "thread" "turn" (idle ticks (empty_disk calm))
      (next_value "thread" (idle ticks (empty_disk calm))).1 (omega arith) (omega arith)

perform-refines_example :
    let s = performs three_operations (Coordinator.new device ticks (empty_disk calm)) in
    may_follow (phase "thread_1_1" s) (phase "thread_1_1" (perform (start_turn (asks "t1")) s))
    ≡ true
perform-refines_example =
    perform-refines three_operations (start_turn (asks "t1")) device ticks (empty_disk calm)
      "thread_1_1"
