-- ===== src/Runtime/Coordinator.antt =====
-- `RuntimeCoordinator` in crates/liz-app-server/src/runtime/coordinator.rs: threads, turns,
-- approvals, checkpoints, tool records and workspace mounts. A response with one field is that
-- field.
pub mod Approvals
pub mod Nodes
pub mod Upkeep
pub mod Machine
pub mod Frames
pub mod Operations
pub mod Numbering
pub mod Tools
use liz.Prelude.{
  ℕ, suc, ◌+◌, ◌%◌, ◌^◌, String, Bool, true, false, not, Option, none, some, List, [], ◌∷◌, ◌++◌,
  map, length, take, retain, if◌then◌else◌,
}
use liz.Text.{join, trim, is_empty, format}
use liz.Assoc.{lookup, insert}
use liz.Protocol.Ids.{ThreadId, TurnId, NodeId, WorkspaceMountId, CheckpointId, Timestamp}
use liz.Protocol.Primitives.{RiskLevel}
use liz.Protocol.Thread.{Thread, ThreadStatus}
use liz.Protocol.Turn.{Turn}
use liz.Protocol.Approval.{ApprovalDecision, ApprovalStatus, ApprovalRequest}
use liz.Protocol.Checkpoint.{Checkpoint, CheckpointScope}
use liz.Protocol.Artifact.{ArtifactKind, ArtifactRef}
use liz.Protocol.Memory.{ResumeSummary}
use liz.Protocol.Node.{WorkspaceMount}
use liz.Protocol.Requests.{
  ThreadStartRequest, ThreadResumeRequest, ThreadListRequest, ThreadForkRequest, TurnStartRequest,
  TurnCancelRequest, ApprovalRespondRequest, WorkspaceMountAttachRequest,
  WorkspaceMountDetachRequest,
}
use liz.Runtime.Error.{RuntimeError, RuntimeResult, ok, err, not_found}
use liz.Runtime.State.{RuntimeCoordinator, RuntimeStores, NodeRegistry, idle}
use liz.Runtime.Exec.{Exec, pure, raise, gets, modify, ok_or, ◌>>=◌, ◌>>◌}
use liz.Runtime.Stores.{
  put_thread, get_thread, list_threads, append_turn_log, read_turn_log, put_checkpoint,
  put_artifact, read_node_registry, write_node_registry,
}
use liz.Runtime.Ids.{
  now_timestamp, next_turn_id, next_approval_id, next_checkpoint_id, next_artifact_id,
}
use liz.Runtime.ThreadManager
use liz.Runtime.ThreadManager.{thread_not_found}
use liz.Runtime.TurnManager
use liz.Runtime.TurnManager.{find_thread}
use liz.Runtime.NodeRegistry
use liz.Runtime.NodeRegistry.{LocalHost}
use liz.Storage.{NodeRegistrySnapshot}
use liz.Runtime.PolicyEngine.{PolicyDecision}
use liz.Executor.Sandbox.{mode_str, network_str}

-- The registry of the snapshot that was read, or the one with the local node alone.
unfoldable pub registry_of : LocalHost → RuntimeResult NodeRegistrySnapshot → NodeRegistry
registry_of host (ok snapshot) = NodeRegistry.from_snapshot host snapshot
registry_of host (err e) = NodeRegistry.default_registry host

-- RuntimeCoordinator::new, over stores that may hold files. It asks the file system for the registry.
unfoldable pub new : LocalHost → (ℕ → ℕ) → RuntimeStores → RuntimeCoordinator
unfolding registry_of
new host clock stores =
    let (found, s) = read_node_registry (idle clock stores) in
    record s { node_registry = registry_of host found }

-- An operation of the node registry, run on the coordinator's.
unfoldable pub on_registry : {A : Type 0} → (NodeRegistry → RuntimeResult A × NodeRegistry) → Exec A
on_registry act s =
    let (result, r) = act s.node_registry in (result, record s { node_registry = r })

unfoldable pub persist_node_registry : Exec (Unit {0})
unfolding ◌>>=◌
persist_node_registry = do
  snapshot ← gets (λ s. NodeRegistry.snapshot s.node_registry)
  write_node_registry snapshot

unfoldable pub attach_workspace_mount : WorkspaceMountAttachRequest → Exec WorkspaceMount
unfolding ◌>>=◌
attach_workspace_mount request = do
  mount ← on_registry (NodeRegistry.attach_workspace_mount request)
  persist_node_registry
  pure mount

unfoldable pub detach_workspace_mount : WorkspaceMountDetachRequest → Exec WorkspaceMountId
unfolding ◌>>=◌
detach_workspace_mount request = do
  workspace_id ← on_registry (NodeRegistry.detach_workspace_mount request)
  persist_node_registry
  pure workspace_id

unfoldable pub read_workspace_mount : WorkspaceMountId → Exec WorkspaceMount
unfolding on_registry
read_workspace_mount workspace_id =
    on_registry (λ r. (NodeRegistry.read_workspace_mount workspace_id r, r))

abbrev resolve_by :
    ThreadStartRequest → Option WorkspaceMountId → Option String → Exec ThreadStartRequest
resolve_by request (some workspace_mount_id) none = do
  mount ← read_workspace_mount workspace_mount_id
  pure (record request { workspace_ref = some mount.root_path })
resolve_by request none (some workspace_ref) =
    if is_empty (trim workspace_ref) then pure request else do
      mount ← on_registry (NodeRegistry.resolve_or_attach_local_workspace workspace_ref)
      persist_node_registry
      pure (record request { workspace_mount_id = some mount.workspace_id })
resolve_by request _ _ = pure request

-- The request with the missing one of the mount and the path filled in.
unfoldable pub resolve_thread_workspace_mount : ThreadStartRequest → Exec ThreadStartRequest
unfolding ◌>>=◌
resolve_thread_workspace_mount request =
    resolve_by request request.workspace_mount_id request.workspace_ref

unfoldable pub start_thread : ThreadStartRequest → Exec Thread
unfolding ◌>>=◌
start_thread request = do
  resolved ← resolve_thread_workspace_mount request
  ThreadManager.start_thread resolved

unfoldable pub build_resume_summary : Thread → ResumeSummary
build_resume_summary thread = record {
  headline = elim thread.latest_turn_id [
    | some turn_id ↦ format ("Resume thread " ∷ thread.title ∷ " from " ∷ turn_id ∷ [])
    | none ↦ format ("Resume thread " ∷ thread.title ∷ [])
  ];
  active_summary = thread.active_summary;
  pending_commitments = thread.pending_commitments;
  last_interruption = thread.last_interruption;
}

unfoldable pub resume_thread : ThreadResumeRequest → Exec (Thread × ResumeSummary)
unfolding ◌>>=◌ build_resume_summary
resume_thread request = do
  thread ← ThreadManager.resume_thread request
  pure (thread, build_resume_summary thread)

unfoldable pub fork_thread : ThreadForkRequest → Exec Thread
fork_thread request = ThreadManager.fork_thread request

unfoldable pub start_turn : TurnStartRequest → Exec Turn
unfolding ◌>>=◌
start_turn request = do
  thread ← find_thread request.thread_id
  TurnManager.start_turn thread request

unfoldable pub cancel_turn : TurnCancelRequest → Exec Turn
cancel_turn request = TurnManager.cancel_turn request

unfoldable pub complete_turn : ThreadId → TurnId → String → Exec Turn
complete_turn thread_id turn_id final_message =
    TurnManager.complete_turn thread_id turn_id final_message

unfoldable pub fail_turn : ThreadId → TurnId → String → Exec Turn
fail_turn thread_id turn_id message = TurnManager.fail_turn thread_id turn_id message

abbrev pub approval_not_found : RuntimeError
approval_not_found = not_found "approval_not_found" "approval does not exist"

unfoldable pub decided : ApprovalDecision → ApprovalStatus
decided ApprovalDecision.deny = ApprovalStatus.denied
decided ApprovalDecision.approve_once = ApprovalStatus.approved
decided ApprovalDecision.approve_and_persist = ApprovalStatus.approved

unfoldable pub respond_approval : ApprovalRespondRequest → Exec ApprovalRequest
unfolding ◌>>=◌ decided
respond_approval request = do
  found ← gets (λ s. lookup request.approval_id s.approvals)
  approval ← ok_or found approval_not_found
  let answered : ApprovalRequest = record approval { status = decided request.decision }
  modify (λ s. record s { approvals = insert request.approval_id answered s.approvals })
  pure answered

unfoldable pub create_checkpoint : ThreadId → TurnId → CheckpointScope → String → Exec Checkpoint
unfolding ◌>>=◌
create_checkpoint thread_id turn_id scope reason = do
  id ← next_checkpoint_id
  created_at ← now_timestamp
  let checkpoint : Checkpoint = record {
    id = id;
    thread_id = thread_id;
    turn_id = turn_id;
    scope = scope;
    reason = reason;
    created_at = created_at;
  }
  put_checkpoint checkpoint
  thread ← find_thread thread_id
  put_thread (record thread {
    latest_checkpoint_id = some checkpoint.id;
    updated_at = checkpoint.created_at;
  })
  pure checkpoint

unfoldable pub checkpoint_if : Bool → ThreadId → TurnId → String → Exec (Option Checkpoint)
unfolding ◌>>=◌
checkpoint_if true thread_id turn_id reason = do
  checkpoint ←
      create_checkpoint thread_id turn_id CheckpointScope.conversation_only
        (format ("Before risky turn: " ∷ reason ∷ []))
  pure (some checkpoint)
checkpoint_if false thread_id turn_id reason = pure none

unfoldable pub approval_for : ThreadId → TurnId → PolicyDecision → String → ApprovalRequest
unfolding join
approval_for thread_id turn_id decision id = record {
  id = id;
  thread_id = thread_id;
  turn_id = turn_id;
  action_type = "turn/start";
  risk_level = decision.risk_level;
  reason = decision.reason;
  sandbox_context = some (
      format (
        "node=local mode="
        ∷ mode_str decision.sandbox_context.filesystem_mode
        ∷ " writable_roots="
        ∷ join "," decision.sandbox_context.writable_roots
        ∷ " network="
        ∷ network_str decision.sandbox_context.network_access
        ∷ []));
  node_id = some "local";
  workspace_mount_id = none;
  status = ApprovalStatus.pending;
}

unfoldable pub require_approval_for_turn :
    ThreadId → TurnId → PolicyDecision → Exec (Option Checkpoint × ApprovalRequest)
unfolding ◌>>=◌
require_approval_for_turn thread_id turn_id decision = do
  checkpoint ← checkpoint_if decision.requires_checkpoint thread_id turn_id decision.reason
  id ← next_approval_id
  let approval = approval_for thread_id turn_id decision id
  TurnManager.mark_waiting_approval thread_id turn_id decision.reason
  modify (λ s. record s { approvals = insert approval.id approval s.approvals })
  pure (checkpoint, approval)

unfoldable pub resume_approved_turn : ThreadId → TurnId → Exec Turn
resume_approved_turn thread_id turn_id = TurnManager.mark_running thread_id turn_id

-- The node and the mount that scope what a thread executes.
unfoldable pub thread_execution_scope : ThreadId → Exec (NodeId × Option WorkspaceMountId)
unfolding ◌>>=◌
thread_execution_scope thread_id = do
  thread ← find_thread thread_id
  elim thread.workspace_mount_id [
    | none ↦ pure ("local", none)
    | some workspace_mount_id ↦ do
      mount ← read_workspace_mount workspace_mount_id
      pure (mount.node_id, some workspace_mount_id)
  ]

-- `len() as u64 + 1`.
unfoldable pub next_tool_sequence : ThreadId → Exec ℕ
unfolding ◌>>=◌
next_tool_sequence thread_id = do
  entries ← read_turn_log thread_id
  pure ((length entries + 1) % 2 ^ 64)

pub record ToolRecord : Type 0 where
  pub thread_id : ThreadId
  pub turn_id : Option TurnId
  pub node_id : Option NodeId
  pub workspace_mount_id : Option WorkspaceMountId
  pub tool_name : String
  pub summary : String
  pub artifacts : List (ArtifactKind × String × String)

-- The loop of `record_tool_execution` over the artifacts. The locator is the path of the artifact's
-- file under the storage root.
unfoldable pub put_artifacts :
    (String → String)
    → ToolRecord
    → TurnId
    → String
    → List (ArtifactKind × String × String)
    → Exec (List ArtifactRef)
unfolding ◌>>=◌
put_artifacts locator tool turn_id created_at [] = pure []
put_artifacts locator tool turn_id created_at ((kind, summary, body) ∷ rest) = do
  artifact_id ← next_artifact_id
  let reference : ArtifactRef = record {
    id = artifact_id;
    thread_id = tool.thread_id;
    turn_id = turn_id;
    kind = kind;
    node_id = tool.node_id;
    workspace_mount_id = tool.workspace_mount_id;
    summary = summary;
    locator = locator artifact_id;
    created_at = created_at;
  }
  put_artifact (record { reference = reference; body = body })
  references ← put_artifacts locator tool turn_id created_at rest
  pure (reference ∷ references)

abbrev pub turn_or_next : Option TurnId → Exec TurnId
turn_or_next none = next_turn_id
turn_or_next (some turn_id) = pure turn_id

-- The log entry of a tool, with the length of the log for its number.
unfoldable pub log_tool : ToolRecord → TurnId → Timestamp → List ArtifactRef → Exec (Unit {0})
unfolding ◌>>=◌
log_tool tool turn_id created_at references = do
  sequence ← next_tool_sequence tool.thread_id
  append_turn_log (record {
    thread_id = tool.thread_id;
    sequence = sequence;
    turn_id = some turn_id;
    recorded_at = created_at;
    event = "tool_completed";
    summary = format (tool.tool_name ∷ ": " ∷ tool.summary ∷ []);
    artifact_ids = map (λ (a : ArtifactRef). a.id) references;
  })

unfoldable pub record_tool_execution :
    (String → String) → ToolRecord → Exec (TurnId × List ArtifactRef)
unfolding ◌>>=◌
record_tool_execution locator tool = do
  turn_id ← turn_or_next tool.turn_id
  created_at ← now_timestamp
  references ← put_artifacts locator tool turn_id created_at tool.artifacts
  log_tool tool turn_id created_at references
  pure (turn_id, references)
