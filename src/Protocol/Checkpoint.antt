-- ===== src/Protocol/Checkpoint.antt =====
-- The data of crates/liz-protocol/src/checkpoint.rs.
use liz.Prelude.{String}
use liz.Protocol.Ids.{CheckpointId, ThreadId, Timestamp, TurnId}

pub data CheckpointScope : Type 0 where
  conversation_only workspace_only conversation_and_workspace : CheckpointScope

pub record Checkpoint : Type 0 where
  pub id : CheckpointId
  pub thread_id : ThreadId
  pub turn_id : TurnId
  pub scope : CheckpointScope
  pub reason : String
  pub created_at : Timestamp
