-- ===== src/Protocol/Requests.antt =====
-- The data of crates/liz-protocol/src/requests.rs.
use liz.Prelude.{Option, String, ℕ}
use liz.Protocol.Approval.{ApprovalDecision}
use liz.Protocol.Ids.{ApprovalId, NodeId, ThreadId, TurnId, WorkspaceMountId}
use liz.Protocol.Interaction.{InteractionContext}
use liz.Protocol.Memory.{ChannelRef, ParticipantRef}
use liz.Protocol.Node.{NodeStatus, WorkspaceMountPermissions}
use liz.Protocol.Thread.{ThreadStatus}

pub data TurnInputKind : Type 0 where
  user_message steering_note resume_command : TurnInputKind

pub record ThreadStartRequest : Type 0 where
  pub title : Option String
  pub initial_goal : Option String
  pub workspace_ref : Option String
  pub workspace_mount_id : Option WorkspaceMountId

pub record ThreadResumeRequest : Type 0 where
  pub thread_id : ThreadId

pub record ThreadListRequest : Type 0 where
  pub status : Option ThreadStatus
  pub limit : Option ℕ

pub record ThreadForkRequest : Type 0 where
  pub thread_id : ThreadId
  pub title : Option String
  pub fork_reason : Option String

pub record TurnStartRequest : Type 0 where
  pub thread_id : ThreadId
  pub input : String
  pub input_kind : TurnInputKind
  pub channel : Option ChannelRef
  pub participant : Option ParticipantRef
  pub interaction_context : Option InteractionContext

pub record TurnCancelRequest : Type 0 where
  pub thread_id : ThreadId
  pub turn_id : TurnId

pub record ApprovalRespondRequest : Type 0 where
  pub approval_id : ApprovalId
  pub decision : ApprovalDecision

pub record WorkspaceMountListRequest : Type 0 where
  pub node_id : Option NodeId

pub record WorkspaceMountAttachRequest : Type 0 where
  pub node_id : NodeId
  pub root_path : String
  pub label : Option String
  pub permissions : WorkspaceMountPermissions

pub record WorkspaceMountDetachRequest : Type 0 where
  pub workspace_id : WorkspaceMountId

pub record NodeHeartbeatRequest : Type 0 where
  pub node_id : NodeId
  pub status : NodeStatus
