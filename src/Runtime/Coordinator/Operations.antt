-- ===== src/Runtime/Coordinator/Operations.antt =====
-- Every history of the coordinator's operations, with any failures of the file system.
use liz.Prelude.{ℕ, String, ◌≡◌, true, some, List, [], ◌∷◌, arith, eq_iff}
use liz.Assoc.{Assoc, lookup}
use liz.Assoc.All.{AllValues-lookup}
use liz.Protocol.Ids.{ThreadId, TurnId}
use liz.Protocol.Turn.{Turn}
use liz.Protocol.Requests.{
  ThreadStartRequest, ThreadResumeRequest, ThreadForkRequest, TurnStartRequest, TurnCancelRequest,
  ApprovalRespondRequest, WorkspaceMountAttachRequest, WorkspaceMountDetachRequest,
}
use liz.Runtime.State.{RuntimeCoordinator, RuntimeStores, idle}
use liz.Runtime.Stores.{read_node_registry}
use liz.Runtime.NodeRegistry.{LocalHost}
use liz.Runtime.Ids.{next_approval_id}
use liz.Runtime.TurnManager.{read_turn, is_live}
use liz.Runtime.TurnManager.Frames.{find_thread-turns}
use liz.Runtime.TurnManager.Exclusive.{
  IsExclusive, start_turn-IsExclusive, cancel_turn-IsExclusive, mark_running-IsExclusive,
  mark_waiting_approval-IsExclusive, complete_turn-IsExclusive, fail_turn-IsExclusive,
}
use liz.Runtime.PolicyEngine.{PolicyDecision}
use liz.Runtime.Coordinator
use liz.Runtime.Coordinator.Frames.{
  start_thread-Keeps, resume_thread-Keeps, fork_thread-Keeps, checkpoint_if-Keeps,
  persist_node_registry-Keeps,
}
use liz.Runtime.Coordinator.Upkeep.{Upkeep, keep_up, keep_up-Keeps}
use liz.Runtime.Coordinator.Tools.{record_tool_execution-turns}
use liz.Runtime.Coordinator.{
  ToolRecord, on_registry, persist_node_registry, read_workspace_mount,
  resolve_thread_workspace_mount, create_checkpoint, checkpoint_if, next_tool_sequence,
  put_artifacts,
}

pub data Operation : Type 0 where
  start_thread : ThreadStartRequest → Operation
  resume_thread : ThreadResumeRequest → Operation
  fork_thread : ThreadForkRequest → Operation
  start_turn : TurnStartRequest → Operation
  cancel_turn : TurnCancelRequest → Operation
  complete_turn : ThreadId → TurnId → String → Operation
  fail_turn : ThreadId → TurnId → String → Operation
  require_approval : ThreadId → TurnId → PolicyDecision → Operation
  resume_approved : ThreadId → TurnId → Operation
  respond_approval : ApprovalRespondRequest → Operation
  record_tool : (String → String) → ToolRecord → Operation
  attach_mount : WorkspaceMountAttachRequest → Operation
  detach_mount : WorkspaceMountDetachRequest → Operation
  upkeep : Upkeep → Operation

-- The state that an operation leaves, whether it succeeds or not.
unfoldable pub perform : Operation → RuntimeCoordinator → RuntimeCoordinator
perform (start_thread request) s = (Coordinator.start_thread request s).1
perform (resume_thread request) s = (Coordinator.resume_thread request s).1
perform (fork_thread request) s = (Coordinator.fork_thread request s).1
perform (start_turn request) s = (Coordinator.start_turn request s).1
perform (cancel_turn request) s = (Coordinator.cancel_turn request s).1
perform (complete_turn thread_id turn_id message) s =
    (Coordinator.complete_turn thread_id turn_id message s).1
perform (fail_turn thread_id turn_id message) s =
    (Coordinator.fail_turn thread_id turn_id message s).1
perform (require_approval thread_id turn_id decision) s =
    (Coordinator.require_approval_for_turn thread_id turn_id decision s).1
perform (resume_approved thread_id turn_id) s =
    (Coordinator.resume_approved_turn thread_id turn_id s).1
perform (respond_approval request) s = (Coordinator.respond_approval request s).1
perform (record_tool locator tool) s = (Coordinator.record_tool_execution locator tool s).1
perform (attach_mount request) s = (Coordinator.attach_workspace_mount request s).1
perform (detach_mount request) s = (Coordinator.detach_workspace_mount request s).1
perform (upkeep u) s = keep_up u s

unfoldable pub performs : List Operation → RuntimeCoordinator → RuntimeCoordinator
unfolding perform
performs [] s = s
performs (op ∷ ops) s = performs ops (perform op s)

abbrev pub HasExclusiveTurns : RuntimeCoordinator → Type 0
HasExclusiveTurns s = IsExclusive s.turn_manager.active_turns

pub perform-HasExclusiveTurns :
    (op : Operation) (s : RuntimeCoordinator)
    → HasExclusiveTurns s
    → HasExclusiveTurns (perform op s)
unfolding perform Coordinator.cancel_turn Coordinator.complete_turn Coordinator.fail_turn
    Coordinator.resume_approved_turn
perform-HasExclusiveTurns (start_thread r) s h = rw ((start_thread-Keeps s r).0) h
perform-HasExclusiveTurns (resume_thread r) s h = rw ((resume_thread-Keeps s r).0) h
perform-HasExclusiveTurns (fork_thread r) s h = rw ((fork_thread-Keeps s r).0) h
perform-HasExclusiveTurns (start_turn r) s h =
    unfold Coordinator.start_turn in grind (arith, find_thread-turns, start_turn-IsExclusive)
perform-HasExclusiveTurns (cancel_turn r) s h = cancel_turn-IsExclusive r s h
perform-HasExclusiveTurns (complete_turn i t m) s h = complete_turn-IsExclusive i t m s h
perform-HasExclusiveTurns (fail_turn i t m) s h = fail_turn-IsExclusive i t m s h
perform-HasExclusiveTurns (require_approval i t d) s h =
    unfold Coordinator.require_approval_for_turn next_approval_id in
    grind (arith, checkpoint_if-Keeps, mark_waiting_approval-IsExclusive)
perform-HasExclusiveTurns (resume_approved i t) s h = mark_running-IsExclusive i t s h
perform-HasExclusiveTurns (respond_approval r) s h =
    unfold Coordinator.respond_approval in ground arith
perform-HasExclusiveTurns (record_tool l t) s h = rw (record_tool_execution-turns l t s) h
perform-HasExclusiveTurns (attach_mount r) s h =
    unfold Coordinator.attach_workspace_mount on_registry in
    grind (arith, persist_node_registry-Keeps)
perform-HasExclusiveTurns (detach_mount r) s h =
    unfold Coordinator.detach_workspace_mount on_registry in
    grind (arith, persist_node_registry-Keeps)
perform-HasExclusiveTurns (upkeep u) s h = rw ((keep_up-Keeps u s).0) h

pub performs-HasExclusiveTurns :
    (ops : List Operation) (s : RuntimeCoordinator)
    → HasExclusiveTurns s
    → HasExclusiveTurns (performs ops s)
unfolding performs
performs-HasExclusiveTurns [] s h = h
performs-HasExclusiveTurns (op ∷ ops) s h =
    performs-HasExclusiveTurns ops (perform op s) (perform-HasExclusiveTurns op s h)

same_turn :
    (a b : TurnId) (t u : Turn) (m : Assoc Turn)
    → IsExclusive m
    → lookup a m ≡ some t
    → lookup b m ≡ some u
    → t.thread_id ≡ u.thread_id
    → (a ≡ b) × (is_live t.status ≡ true)
unfolding lookup
same_turn a b t u [] e p q h = cc
same_turn a b t u ((k, v) ∷ m) (l, o, e) p q h =
    grind (arith, eq_iff k a, eq_iff k b, same_turn a b t u m e, AllValues-lookup)

pub new-turns :
    (host : LocalHost) (clock : ℕ → ℕ) (stores : RuntimeStores)
    → (Coordinator.new host clock stores).turn_manager ≡ (idle clock stores).turn_manager
unfolding Coordinator.new read_node_registry
new-turns host clock stores = ground arith

-- After any operations on a new coordinator, failing or not, whatever is on file and whatever the
-- file system answers, two turns in memory that belong to one thread are the same turn, and a turn
-- in memory is running or waiting for approval.
pub performs-one_turn :
    (ops : List Operation) (host : LocalHost) (clock : ℕ → ℕ) (stores : RuntimeStores)
    (a b : TurnId) (t u : Turn)
    → read_turn a (performs ops (Coordinator.new host clock stores)).turn_manager ≡ some t
    → read_turn b (performs ops (Coordinator.new host clock stores)).turn_manager ≡ some u
    → t.thread_id ≡ u.thread_id
    → (a ≡ b) × (is_live t.status ≡ true)
unfolding read_turn
performs-one_turn ops host clock stores a b t u p q h =
    let s = Coordinator.new host clock stores in
    same_turn a b t u (performs ops s).turn_manager.active_turns
      (performs-HasExclusiveTurns ops s (rw (new-turns host clock stores) tt)) p q h
