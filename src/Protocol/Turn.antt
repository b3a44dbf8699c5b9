-- ===== src/Protocol/Turn.antt =====
-- The data of crates/liz-protocol/src/turn.rs.
use liz.Prelude.{Option, String}
use liz.Protocol.Ids.{CheckpointId, ThreadId, Timestamp, TurnId}

pub data TurnStatus : Type 0 where
  running waiting_approval cancelled completed failed : TurnStatus

pub data TurnKind : Type 0 where
  user assistant verification compilation rollback : TurnKind

pub record Turn : Type 0 where
  pub id : TurnId
  pub thread_id : ThreadId
  pub kind : TurnKind
  pub status : TurnStatus
  pub started_at : Timestamp
  pub ended_at : Option Timestamp
  pub goal : Option String
  pub summary : Option String
  pub checkpoint_before : Option CheckpointId
  pub checkpoint_after : Option CheckpointId
