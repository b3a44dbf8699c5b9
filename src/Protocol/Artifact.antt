-- ===== src/Protocol/Artifact.antt =====
-- The data of crates/liz-protocol/src/artifact.rs.
use liz.Prelude.{Option, String}
use liz.Protocol.Ids.{ArtifactId, NodeId, ThreadId, Timestamp, TurnId, WorkspaceMountId}

pub data ArtifactKind : Type 0 where
  diff tool_trace snapshot command_output approval_record memory_citation : ArtifactKind

pub record ArtifactRef : Type 0 where
  pub id : ArtifactId
  pub thread_id : ThreadId
  pub turn_id : TurnId
  pub kind : ArtifactKind
  pub node_id : Option NodeId
  pub workspace_mount_id : Option WorkspaceMountId
  pub summary : String
  pub locator : String
  pub created_at : Timestamp
