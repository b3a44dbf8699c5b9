-- ===== src/Protocol/Thread.antt =====
-- The data of crates/liz-protocol/src/thread.rs.
use liz.Prelude.{List, Option, String}
use liz.Protocol.Ids.{CheckpointId, ThreadId, Timestamp, TurnId, WorkspaceMountId}

pub data ThreadStatus : Type 0 where
  active waiting_approval interrupted completed failed archived : ThreadStatus

pub record Thread : Type 0 where
  pub id : ThreadId
  pub title : String
  pub status : ThreadStatus
  pub created_at : Timestamp
  pub updated_at : Timestamp
  pub active_goal : Option String
  pub active_summary : Option String
  pub last_interruption : Option String
  pub workspace_ref : Option String
  pub workspace_mount_id : Option WorkspaceMountId
  pub pending_commitments : List String
  pub latest_turn_id : Option TurnId
  pub latest_checkpoint_id : Option CheckpointId
  pub parent_thread_id : Option ThreadId
