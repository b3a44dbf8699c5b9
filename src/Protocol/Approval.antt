-- ===== src/Protocol/Approval.antt =====
-- The data of crates/liz-protocol/src/approval.rs.
use liz.Prelude.{Option, String}
use liz.Protocol.Ids.{ApprovalId, NodeId, ThreadId, TurnId, WorkspaceMountId}
use liz.Protocol.Primitives.{RiskLevel}

pub data ApprovalDecision : Type 0 where
  approve_once approve_and_persist deny : ApprovalDecision

pub data ApprovalPolicy : Type 0 where
  on_request danger_full_access : ApprovalPolicy

pub data ApprovalStatus : Type 0 where
  pending approved denied expired : ApprovalStatus

pub record ApprovalRequest : Type 0 where
  pub id : ApprovalId
  pub thread_id : ThreadId
  pub turn_id : TurnId
  pub action_type : String
  pub risk_level : RiskLevel
  pub reason : String
  pub sandbox_context : Option String
  pub node_id : Option NodeId
  pub workspace_mount_id : Option WorkspaceMountId
  pub status : ApprovalStatus
