-- ===== src/Protocol/Node.antt =====
-- The data of crates/liz-protocol/src/node.rs.
use liz.Prelude.{Bool, List, Option, String, ℕ}
use liz.Protocol.Approval.{ApprovalPolicy}
use liz.Protocol.Ids.{NodeId, Timestamp, WorkspaceMountId}
use liz.Protocol.Sandbox.{SandboxMode}

pub data NodeKind : Type 0 where
  desktop server laptop phone container browser_host : NodeKind

pub record NodeIdentity : Type 0 where
  pub node_id : NodeId
  pub display_name : String
  pub kind : NodeKind
  pub owner_device : Bool

pub record NodeStatus : Type 0 where
  pub online : Bool
  pub last_seen_at : Option Timestamp
  pub app_version : Option String
  pub os : Option String
  pub hostname : Option String

pub record NodeCapabilities : Type 0 where
  pub workspace_tools : Bool
  pub shell_tools : Bool
  pub browser_tools : Bool
  pub web_ui_host : Bool
  pub notifications : Bool
  pub max_concurrent_tasks : ℕ
  pub supported_sandbox_modes : List SandboxMode

pub record NodePolicy : Type 0 where
  pub allowed_roots : List String
  pub protected_paths : List String
  pub default_sandbox : SandboxMode
  pub network_policy : String
  pub approval_policy : ApprovalPolicy

pub record NodeRecord : Type 0 where
  pub identity : NodeIdentity
  pub status : NodeStatus
  pub capabilities : NodeCapabilities
  pub policy : NodePolicy

pub record WorkspaceMountPermissions : Type 0 where
  pub read : Bool
  pub write : Bool
  pub shell : Bool

pub record WorkspaceMount : Type 0 where
  pub workspace_id : WorkspaceMountId
  pub node_id : NodeId
  pub root_path : String
  pub label : String
  pub permissions : WorkspaceMountPermissions
