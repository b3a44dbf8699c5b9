-- ===== src/Storage.antt =====
-- The records that crates/liz-app-server/src/storage persists, and the files of the layout in
-- storage/paths.rs. A file of one record for an identifier is an entry of a map; a file that is
-- not there is a missing entry, or `none`.
use liz.Prelude.{ℕ, String, Option, none, List, []}
use liz.Assoc.{Assoc}
use liz.Protocol.Ids.{ArtifactId, MemoryFactId, ThreadId, Timestamp, TurnId}
use liz.Protocol.Thread.{Thread}
use liz.Protocol.Checkpoint.{Checkpoint}
use liz.Protocol.Artifact.{ArtifactRef}
use liz.Protocol.Node.{NodeRecord, WorkspaceMount}
use liz.Protocol.Memory.{
  InfoBoundary, MemoryCitationRef, MemoryFactKind, MemoryTopicStatus, RelationshipEntry,
}
use liz.Protocol.Auth.{ProviderAuthProfile}
use liz.Prelude.{false}

pub record TurnLogEntry : Type 0 where
  pub thread_id : ThreadId
  pub sequence : ℕ
  pub turn_id : Option TurnId
  pub recorded_at : Timestamp
  pub event : String
  pub summary : String
  pub artifact_ids : List ArtifactId

pub record StoredMemoryFact : Type 0 where
  pub id : MemoryFactId
  pub kind : MemoryFactKind
  pub subject : String
  pub value : String
  pub keywords : List String
  pub related_thread_ids : List ThreadId
  pub citations : List MemoryCitationRef
  pub updated_at : Timestamp
  pub invalidated_at : Option Timestamp
  pub invalidated_by : Option MemoryFactId

pub record StoredTopicRecord : Type 0 where
  pub name : String
  pub aliases : List String
  pub summary : String
  pub status : MemoryTopicStatus
  pub last_active_at : Timestamp
  pub related_thread_ids : List ThreadId
  pub related_artifact_ids : List ArtifactId
  pub citation_fact_ids : List MemoryFactId
  pub recent_keywords : List String
  pub citations : List MemoryCitationRef

pub record GlobalMemorySnapshot : Type 0 where
  pub identity_summary : Option String
  pub active_state_summary : Option String
  pub active_thread_ids : List ThreadId
  pub recent_topics : List String
  pub recent_keywords : List String
  pub facts : List StoredMemoryFact
  pub topic_index : List StoredTopicRecord
  pub relationships : List RelationshipEntry
  pub default_stranger_boundary : InfoBoundary

-- InfoBoundary::stranger_default.
abbrev pub stranger_boundary : InfoBoundary
stranger_boundary = record {
  shared_topics = [];
  forbidden_topics = [];
  share_active_state = false;
  share_commitments = false;
}

-- GlobalMemorySnapshot::empty.
abbrev pub empty_snapshot : GlobalMemorySnapshot
empty_snapshot = record {
  identity_summary = none;
  active_state_summary = none;
  active_thread_ids = [];
  recent_topics = [];
  recent_keywords = [];
  facts = [];
  topic_index = [];
  relationships = [];
  default_stranger_boundary = stranger_boundary;
}

pub record StoredArtifact : Type 0 where
  pub reference : ArtifactRef
  pub body : String

pub record NodeRegistrySnapshot : Type 0 where
  pub nodes : List NodeRecord
  pub workspace_mounts : List WorkspaceMount

pub record AuthProfileSnapshot : Type 0 where
  pub profiles : List ProviderAuthProfile

-- The files under the storage root.
pub record StoragePaths : Type 0 where
  pub threads : Assoc Thread
  pub turn_logs : Assoc (List TurnLogEntry)
  pub checkpoints : Assoc Checkpoint
  pub artifacts : Assoc StoredArtifact
  pub global_memory : Option GlobalMemorySnapshot
  pub auth_profiles : Option AuthProfileSnapshot
  pub node_registry : Option NodeRegistrySnapshot

abbrev pub no_files : StoragePaths
no_files = record {
  threads = [];
  turn_logs = [];
  checkpoints = [];
  artifacts = [];
  global_memory = none;
  auth_profiles = none;
  node_registry = none;
}
