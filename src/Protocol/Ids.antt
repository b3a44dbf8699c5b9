-- ===== src/Protocol/Ids.antt =====
-- The identifiers of crates/liz-protocol/src/ids.rs and the timestamps of primitives.rs: wrapped texts.
use liz.Prelude.{String}

abbrev pub ThreadId : Type 0
ThreadId = String

abbrev pub TurnId : Type 0
TurnId = String

abbrev pub EventId : Type 0
EventId = String

abbrev pub ApprovalId : Type 0
ApprovalId = String

abbrev pub CheckpointId : Type 0
CheckpointId = String

abbrev pub ArtifactId : Type 0
ArtifactId = String

abbrev pub MemoryFactId : Type 0
MemoryFactId = String

abbrev pub ExecutorTaskId : Type 0
ExecutorTaskId = String

abbrev pub NodeId : Type 0
NodeId = String

abbrev pub WorkspaceMountId : Type 0
WorkspaceMountId = String

abbrev pub Timestamp : Type 0
Timestamp = String
