-- ===== src/Runtime/Coordinator/Numbering.antt =====
-- The numbers of the log over the coordinator's operations.
use liz.Prelude.{◌≡◌, Bool, true, false, arith}
use liz.Protocol.Ids.{ThreadId}
use liz.Runtime.State.{RuntimeCoordinator}
use liz.Runtime.Ids.{next_approval_id}
use liz.Runtime.TurnManager.Frames.{find_thread-turns, find_thread-logs}
use liz.Runtime.TurnManager.Sequence.{
  HasRoom, HasNumberedLog, start_turn-HasNumberedLog, cancel_turn-HasNumberedLog,
  complete_turn-HasNumberedLog, fail_turn-HasNumberedLog, mark_waiting_approval-HasNumberedLog,
  mark_running-HasNumberedLog,
}
use liz.Runtime.Coordinator
use liz.Runtime.Coordinator.{on_registry}
use liz.Runtime.Coordinator.Frames.{
  start_thread-Keeps, resume_thread-Keeps, fork_thread-Keeps, checkpoint_if-Keeps,
  persist_node_registry-Keeps,
}
use liz.Runtime.Coordinator.Upkeep.{keep_up-Keeps}
use liz.Runtime.Coordinator.Operations.{
  Operation, start_thread, resume_thread, fork_thread, start_turn, cancel_turn, complete_turn,
  fail_turn, require_approval, resume_approved, respond_approval, record_tool, attach_mount,
  detach_mount, upkeep, perform,
}

unfoldable pub records_tool : Operation → Bool
records_tool (record_tool locator tool) = true
records_tool _ = false

-- Let the entries of a thread's log be in increasing order of their numbers, and the turn manager
-- know a number at least as large as the last. Then the same holds after any operation but the
-- record of a tool, whether it succeeds or fails, when no thread has used up the numbers below
-- 2 ^ 64.
pub perform-HasNumberedLog :
    (op : Operation) (j : ThreadId) (s : RuntimeCoordinator)
    → records_tool op ≡ false
    → HasRoom s
    → HasNumberedLog j s
    → HasNumberedLog j (perform op s)
unfolding perform records_tool Coordinator.cancel_turn Coordinator.complete_turn
    Coordinator.fail_turn Coordinator.resume_approved_turn
perform-HasNumberedLog (start_thread r) j s t room h =
    rw ((start_thread-Keeps s r).0, (start_thread-Keeps s r).1) h
perform-HasNumberedLog (resume_thread r) j s t room h =
    rw ((resume_thread-Keeps s r).0, (resume_thread-Keeps s r).1) h
perform-HasNumberedLog (fork_thread r) j s t room h =
    rw ((fork_thread-Keeps s r).0, (fork_thread-Keeps s r).1) h
perform-HasNumberedLog (start_turn r) j s t room h =
    unfold Coordinator.start_turn in
    grind (arith, find_thread-turns, find_thread-logs, start_turn-HasNumberedLog)
perform-HasNumberedLog (cancel_turn r) j s t room h = cancel_turn-HasNumberedLog j s r room h
perform-HasNumberedLog (complete_turn i u m) j s t room h =
    complete_turn-HasNumberedLog j s i u m room h
perform-HasNumberedLog (fail_turn i u m) j s t room h = fail_turn-HasNumberedLog j s i u m room h
perform-HasNumberedLog (require_approval i u d) j s t room h =
    unfold Coordinator.require_approval_for_turn next_approval_id in
    grind (arith, checkpoint_if-Keeps, mark_waiting_approval-HasNumberedLog)
perform-HasNumberedLog (resume_approved i u) j s t room h =
    mark_running-HasNumberedLog j s i u room h
perform-HasNumberedLog (respond_approval r) j s t room h =
    unfold Coordinator.respond_approval in ground arith
perform-HasNumberedLog (record_tool l u) j s t room h = cc
perform-HasNumberedLog (attach_mount r) j s t room h =
    unfold Coordinator.attach_workspace_mount on_registry in
    grind (arith, persist_node_registry-Keeps)
perform-HasNumberedLog (detach_mount r) j s t room h =
    unfold Coordinator.detach_workspace_mount on_registry in
    grind (arith, persist_node_registry-Keeps)
perform-HasNumberedLog (upkeep u) j s t room h = rw ((keep_up-Keeps u s).0, (keep_up-Keeps u s).1) h
