-- ===== src/Runtime/Coordinator/Nodes.antt =====
-- The operations of the coordinator on nodes, and its lists of threads and mounts.
use liz.Prelude.{
  ℕ, Bool, true, false, Option, none, some, List, [], ◌∷◌, if◌then◌else◌, retain, sort_by, take,
}
use liz.Text.{text_le}
use liz.Protocol.Ids.{NodeId}
use liz.Protocol.Thread.{Thread, ThreadStatus}
use liz.Protocol.Node.{NodeRecord, NodePolicy, WorkspaceMount}
use liz.Protocol.Interaction.{
  ActorKind, AudienceVisibility, InteractionRole, InboundEventAction, stranger_disclosure,
}
use liz.Protocol.Requests.{ThreadListRequest, WorkspaceMountListRequest, NodeHeartbeatRequest}
use liz.Runtime.Exec.{Exec, pure, gets, ◌>>=◌, ◌>>◌}
use liz.Runtime.Stores
use liz.Runtime.Inbound.{InboundEvent, classify}
use liz.Runtime.NodeRegistry
use liz.Runtime.Coordinator.{on_registry, persist_node_registry}

abbrev pub same_status : ThreadStatus → ThreadStatus → Bool
same_status ThreadStatus.active ThreadStatus.active = true
same_status ThreadStatus.waiting_approval ThreadStatus.waiting_approval = true
same_status ThreadStatus.interrupted ThreadStatus.interrupted = true
same_status ThreadStatus.completed ThreadStatus.completed = true
same_status ThreadStatus.failed ThreadStatus.failed = true
same_status ThreadStatus.archived ThreadStatus.archived = true
same_status _ _ = false

abbrev pub has_status : Option ThreadStatus → Thread → Bool
has_status none thread = true
has_status (some status) thread = same_status thread.status status

abbrev pub latest_first : Thread → Thread → Bool
latest_first left right = text_le right.updated_at left.updated_at

abbrev pub at_most : Option ℕ → List Thread → List Thread
at_most none threads = threads
at_most (some limit) threads = take limit threads

unfoldable pub listed_threads : ThreadListRequest → List Thread → List Thread
unfolding retain sort_by
listed_threads request threads =
    at_most request.limit (sort_by latest_first (retain (has_status request.status) threads))

unfoldable pub list_threads : ThreadListRequest → Exec (List Thread)
unfolding ◌>>=◌ listed_threads
list_threads request = do threads ← Stores.list_threads; pure (listed_threads request threads)

unfoldable pub list_nodes : Exec (List NodeRecord)
unfolding ◌>>=◌
list_nodes = gets (λ s. NodeRegistry.list_nodes s.node_registry)

unfoldable pub read_node : NodeId → Exec NodeRecord
unfolding on_registry
read_node node_id = on_registry (λ r. (NodeRegistry.read_node node_id r, r))

unfoldable pub update_node_policy : NodeId → NodePolicy → Exec NodeRecord
unfolding ◌>>=◌
update_node_policy node_id policy = do
  node ← on_registry (NodeRegistry.update_node_policy node_id policy)
  persist_node_registry
  pure node

-- The event that a heartbeat is.
unfoldable pub heartbeat_event : NodeHeartbeatRequest → NodeRecord → InboundEvent
heartbeat_event request node = record {
  interaction_context = record {
    ingress = record { kind = "node"; source_id = request.node_id; conversation_id = none };
    actor = record {
      actor_id = request.node_id;
      kind = if node.identity.owner_device then ActorKind.local_node else ActorKind.remote_node;
      display_name = some node.identity.display_name;
      proof = some "registered_node";
    };
    audience = record {
      visibility = AudienceVisibility.machine;
      participants = request.node_id ∷ [];
    };
    role = InteractionRole.node_controller;
    authority = record {
      can_speak_for_owner = false;
      can_start_work = false;
      can_call_tools = false;
      can_write_memory = false;
      requires_owner_confirmation = false;
    };
    disclosure = stranger_disclosure;
    task_mandate = some "node heartbeat";
    provenance = record {
      channel = none;
      received_at = request.status.last_seen_at;
      authenticated_by = some "node_registry";
      raw_event_ref = none;
    };
  };
  text = none;
  event_kind = "node.heartbeat";
}

unfoldable pub heartbeat_node : NodeHeartbeatRequest → Exec (NodeRecord × InboundEventAction)
unfolding ◌>>=◌ heartbeat_event classify
heartbeat_node request = do
  found ← read_node request.node_id
  let action = classify (heartbeat_event request found)
  node ← on_registry (NodeRegistry.update_node_status request.node_id request.status)
  persist_node_registry
  pure (node, action)

unfoldable pub list_workspace_mounts : WorkspaceMountListRequest → Exec (List WorkspaceMount)
unfolding ◌>>=◌
list_workspace_mounts request =
    gets (λ s. NodeRegistry.list_workspace_mounts request s.node_registry)
