-- ===== src/Runtime/Coordinator/Machine.antt =====
-- The coordinator as an implementation of the machine of each thread.
use liz.Prelude.{ℕ, ◌≡◌, true, List, arith}
use liz.Protocol.Ids.{ThreadId}
use liz.Runtime.State.{RuntimeCoordinator, RuntimeStores}
use liz.Runtime.NodeRegistry.{LocalHost}
use liz.Runtime.Ids.{next_approval_id}
use liz.Runtime.TurnManager.Frames.{find_thread-turns}
use liz.Runtime.TurnManager.Phases.{
  may_follow, may_follow_refl, phase, start_turn-may_follow, complete_turn-may_follow,
  fail_turn-may_follow, cancel_turn-may_follow, mark_running-may_follow,
  mark_waiting_approval-may_follow,
}
use liz.Runtime.Coordinator
use liz.Runtime.Coordinator.{on_registry}
use liz.Runtime.Coordinator.Frames.{
  start_thread-Keeps, resume_thread-Keeps, fork_thread-Keeps, checkpoint_if-Keeps,
  persist_node_registry-Keeps,
}
use liz.Runtime.Coordinator.Upkeep.{keep_up-Keeps}
use liz.Runtime.Coordinator.Tools.{record_tool_execution-turns}
use liz.Runtime.Coordinator.Operations.{
  Operation, start_thread, resume_thread, fork_thread, start_turn, cancel_turn, complete_turn,
  fail_turn, require_approval, resume_approved, respond_approval, record_tool, attach_mount,
  detach_mount, upkeep, perform, performs, HasExclusiveTurns, performs-HasExclusiveTurns, new-turns,
}

stays :
    (j : ThreadId) (s : RuntimeCoordinator) (op : Operation)
    → (perform op s).turn_manager ≡ s.turn_manager
    → may_follow (phase j s) (phase j (perform op s)) ≡ true
stays j s op e = rw e (may_follow_refl (phase j s))

module _ (j : ThreadId) (s : RuntimeCoordinator) where
  perform-may_follow :
      (op : Operation)
      → HasExclusiveTurns s
      → may_follow (phase j s) (phase j (perform op s)) ≡ true
  unfolding perform Coordinator.cancel_turn Coordinator.complete_turn Coordinator.fail_turn
      Coordinator.resume_approved_turn
  perform-may_follow (start_thread r) h = stays j s (start_thread r) (start_thread-Keeps s r).0
  perform-may_follow (resume_thread r) h = stays j s (resume_thread r) (resume_thread-Keeps s r).0
  perform-may_follow (fork_thread r) h = stays j s (fork_thread r) (fork_thread-Keeps s r).0
  perform-may_follow (start_turn r) h =
      unfold Coordinator.start_turn in
      grind (arith, find_thread-turns, start_turn-may_follow, may_follow_refl)
  perform-may_follow (cancel_turn r) h = cancel_turn-may_follow j s r h
  perform-may_follow (complete_turn i t m) h = complete_turn-may_follow j s i t m h
  perform-may_follow (fail_turn i t m) h = fail_turn-may_follow j s i t m h
  perform-may_follow (require_approval i t d) h =
      unfold Coordinator.require_approval_for_turn next_approval_id in
      grind (arith, checkpoint_if-Keeps, mark_waiting_approval-may_follow, may_follow_refl)
  perform-may_follow (resume_approved i t) h = mark_running-may_follow j s i t
  perform-may_follow (respond_approval r) h =
      unfold Coordinator.respond_approval in grind (arith, may_follow_refl)
  perform-may_follow (record_tool l t) h =
      stays j s (record_tool l t) (record_tool_execution-turns l t s)
  perform-may_follow (attach_mount r) h =
      unfold Coordinator.attach_workspace_mount on_registry in
      grind (arith, persist_node_registry-Keeps, may_follow_refl)
  perform-may_follow (detach_mount r) h =
      unfold Coordinator.detach_workspace_mount on_registry in
      grind (arith, persist_node_registry-Keeps, may_follow_refl)
  perform-may_follow (upkeep u) h = stays j s (upkeep u) (keep_up-Keeps u s).0

-- Each thread is a machine that is idle, runs a turn or waits for approval with one, and any
-- operation on any state that a new coordinator reaches, whether it succeeds or fails and whatever
-- the file system answers, takes each thread's machine through one of its steps: nothing, a turn
-- that starts as running where there was none, the turn that stops for approval or goes on, or the
-- turn that ends. No turn takes the place of another.
pub perform-refines :
    (ops : List Operation) (op : Operation) (host : LocalHost) (clock : ℕ → ℕ)
    (stores : RuntimeStores) (j : ThreadId)
    → let s = performs ops (Coordinator.new host clock stores) in
      may_follow (phase j s) (phase j (perform op s)) ≡ true
perform-refines ops op host clock stores j =
    let s = Coordinator.new host clock stores in
    perform-may_follow j (performs ops s) op
      (performs-HasExclusiveTurns ops s (rw (new-turns host clock stores) tt))
