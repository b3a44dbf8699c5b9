-- ===== src/Runtime/NodeRegistry.antt =====
-- `NodeRegistry` in crates/liz-app-server/src/runtime/node_registry.rs.
pub mod Mounts
use mathlib.Core.List.{foldl}
use liz.Prelude.{
  sort_by, ℕ, zero, suc, ◌+◌, String, Bool, true, false, ◌&&◌, Option, none, some, List, [], ◌∷◌,
  ◌==◌, length, retain, if◌then◌else◌, unwrap_or,
}
use liz.Text.{format, text_le}
use liz.Text.Digits.{to_decimal}
use liz.Assoc.{Assoc, lookup, insert, remove, contains_key, values}
use liz.Protocol.Ids.{NodeId, WorkspaceMountId}
use liz.Protocol.Sandbox.{SandboxMode}
use liz.Protocol.Approval.{ApprovalPolicy}
use liz.Protocol.Node.{
  NodeKind, NodeStatus, NodePolicy, NodeRecord, WorkspaceMount, WorkspaceMountPermissions,
}
use liz.Protocol.Requests.{
  WorkspaceMountListRequest, WorkspaceMountAttachRequest, WorkspaceMountDetachRequest,
}
use liz.Storage.{NodeRegistrySnapshot}
use liz.Runtime.Error.{RuntimeError, RuntimeResult, ok, err, not_found}
use liz.Runtime.State.{NodeRegistry}

abbrev pub node_not_found : RuntimeError
node_not_found = not_found "node_not_found" "node does not exist"

abbrev pub mount_not_found : RuntimeError
mount_not_found = not_found "workspace_mount_not_found" "workspace mount does not exist"

-- What the build and the environment say of this device.
pub record LocalHost : Type 0 where
  pub version : String
  pub os : String
  pub hostname : Option String

unfoldable pub local_node_record : LocalHost → NodeRecord
local_node_record host = record {
  identity = record {
    node_id = "local";
    display_name = "Local device";
    kind = NodeKind.desktop;
    owner_device = true;
  };
  status = record {
    online = true;
    last_seen_at = none;
    app_version = some host.version;
    os = some host.os;
    hostname = host.hostname;
  };
  capabilities = record {
    workspace_tools = true;
    shell_tools = true;
    browser_tools = false;
    web_ui_host = true;
    notifications = false;
    max_concurrent_tasks = 1;
    supported_sandbox_modes = SandboxMode.workspace_write ∷ SandboxMode.danger_full_access ∷ [];
  };
  policy = record {
    allowed_roots = [];
    protected_paths = [];
    default_sandbox = SandboxMode.workspace_write;
    network_policy = "inherit-local";
    approval_policy = ApprovalPolicy.on_request;
  };
}

-- NodeRegistry::default.
unfoldable pub default_registry : LocalHost → NodeRegistry
unfolding local_node_record
default_registry host = record {
  nodes = ("local", local_node_record host) ∷ [];
  workspace_mounts = [];
}

-- `collect::<HashMap<_, _>>()` of the values under their keys: a later one replaces an earlier.
unfoldable pub collect : {V : Type 0} → (V → String) → List V → Assoc V
collect key vs = foldl (λ m v. insert (key v) v m) [] vs

-- The built-in node, seen last when the persisted one was.
unfoldable pub refreshed_local : LocalHost → Option NodeRecord → NodeRecord
unfolding local_node_record
refreshed_local host none = local_node_record host
refreshed_local host (some persisted) =
    let local = local_node_record host in
    record local { status = record (local.status) { last_seen_at = persisted.status.last_seen_at } }

unfoldable pub from_snapshot : LocalHost → NodeRegistrySnapshot → NodeRegistry
unfolding collect refreshed_local
from_snapshot host snapshot =
    let nodes = collect (λ node. node.identity.node_id) snapshot.nodes in
    record {
      nodes = insert "local" (refreshed_local host (lookup "local" nodes)) nodes;
      workspace_mounts = collect (λ mount. mount.workspace_id) snapshot.workspace_mounts;
    }

unfoldable pub list_nodes : NodeRegistry → List NodeRecord
unfolding sort_by
list_nodes r = sort_by (λ a b. text_le a.identity.node_id b.identity.node_id) (values r.nodes)

unfoldable pub snapshot : NodeRegistry → NodeRegistrySnapshot
unfolding list_nodes sort_by
snapshot r = record {
  nodes = list_nodes r;
  workspace_mounts =
      sort_by (λ a b. text_le a.workspace_id b.workspace_id) (values r.workspace_mounts);
}

abbrev ok_or : {A : Type 0} → Option A → RuntimeError → RuntimeResult A
ok_or none e = err e
ok_or (some a) e = ok a

unfoldable pub read_node : NodeId → NodeRegistry → RuntimeResult NodeRecord
read_node node_id r = ok_or (lookup node_id r.nodes) node_not_found

unfoldable pub read_workspace_mount : WorkspaceMountId → NodeRegistry → RuntimeResult WorkspaceMount
read_workspace_mount workspace_id r = ok_or (lookup workspace_id r.workspace_mounts) mount_not_found

-- `get_mut` with the change of the record found.
unfoldable pub update_node :
    NodeId → (NodeRecord → NodeRecord) → NodeRegistry → RuntimeResult NodeRecord × NodeRegistry
update_node node_id change r = elim (lookup node_id r.nodes) [
  | none ↦ (err node_not_found, r)
  | some node ↦ (ok (change node), record r { nodes = insert node_id (change node) r.nodes })
]

unfoldable pub update_node_policy :
    NodeId → NodePolicy → NodeRegistry → RuntimeResult NodeRecord × NodeRegistry
unfolding update_node
update_node_policy node_id policy = update_node node_id (λ node. record node { policy = policy })

unfoldable pub update_node_status :
    NodeId → NodeStatus → NodeRegistry → RuntimeResult NodeRecord × NodeRegistry
unfolding update_node
update_node_status node_id status = update_node node_id (λ node. record node { status = status })

abbrev is_on : Option NodeId → WorkspaceMount → Bool
is_on none mount = true
is_on (some node_id) mount = mount.node_id == node_id

unfoldable pub list_workspace_mounts :
    WorkspaceMountListRequest → NodeRegistry → List WorkspaceMount
unfolding retain
list_workspace_mounts request r = retain (is_on request.node_id) (values r.workspace_mounts)

abbrev pub mount_id : ℕ → WorkspaceMountId
mount_id index = format ("workspace_" ∷ to_decimal index ∷ [])

-- The loop of `next_workspace_mount_id`, for at most `fuel` ids that are taken.
unfoldable pub free_mount_id : ℕ → ℕ → Assoc WorkspaceMount → WorkspaceMountId
free_mount_id zero index mounts = mount_id index
free_mount_id (suc fuel) index mounts =
    let rest = free_mount_id fuel (index + 1) mounts in
    if contains_key (mount_id index) mounts then rest else mount_id index

-- A table of n mounts takes at most n ids.
unfoldable pub next_workspace_mount_id : Assoc WorkspaceMount → WorkspaceMountId
unfolding free_mount_id
next_workspace_mount_id mounts = free_mount_id (length mounts) (length mounts + 1) mounts

unfoldable pub attach_workspace_mount :
    WorkspaceMountAttachRequest → NodeRegistry → RuntimeResult WorkspaceMount × NodeRegistry
attach_workspace_mount request r =
    if contains_key request.node_id r.nodes
    then (let workspace_id = next_workspace_mount_id r.workspace_mounts in
        let mount : WorkspaceMount = record {
          workspace_id = workspace_id;
          node_id = request.node_id;
          root_path = request.root_path;
          label = unwrap_or request.root_path request.label;
          permissions = request.permissions;
        } in
        (ok mount, record r { workspace_mounts = insert workspace_id mount r.workspace_mounts }))
    else (err node_not_found, r)

-- `values().find(…)`.
unfoldable pub find_local : String → Assoc WorkspaceMount → Option WorkspaceMount
find_local root_path [] = none
find_local root_path ((k, mount) ∷ m) =
    let rest = find_local root_path m in
    if mount.node_id == "local" && mount.root_path == root_path then some mount else rest

abbrev pub local_request : String → WorkspaceMountAttachRequest
local_request root_path = record {
  node_id = "local";
  root_path = root_path;
  label = none;
  permissions = record { read = true; write = true; shell = true };
}

unfoldable pub resolve_or_attach_local_workspace :
    String → NodeRegistry → RuntimeResult WorkspaceMount × NodeRegistry
unfolding attach_workspace_mount find_local
resolve_or_attach_local_workspace root_path r = elim (find_local root_path r.workspace_mounts) [
  | some existing ↦ (ok existing, r)
  | none ↦ attach_workspace_mount (local_request root_path) r
]

unfoldable pub detach_workspace_mount :
    WorkspaceMountDetachRequest → NodeRegistry → RuntimeResult WorkspaceMountId × NodeRegistry
detach_workspace_mount request r =
    if contains_key request.workspace_id r.workspace_mounts
    then (
      ok request.workspace_id,
      record r { workspace_mounts = remove request.workspace_id r.workspace_mounts },
    )
    else (err mount_not_found, r)
