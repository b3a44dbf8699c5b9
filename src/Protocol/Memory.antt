-- ===== src/Protocol/Memory.antt =====
-- The data of crates/liz-protocol/src/memory.rs.
use liz.Prelude.{Bool, List, Option, String}
use liz.Protocol.Ids.{ArtifactId, ThreadId, TurnId}

pub record ResumeSummary : Type 0 where
  pub headline : String
  pub active_summary : Option String
  pub pending_commitments : List String
  pub last_interruption : Option String

pub data MemoryFactKind : Type 0 where
  identity active_state commitment decision topic procedure_candidate keyword : MemoryFactKind

pub data ChannelKind : Type 0 where
  cli web telegram discord email unknown : ChannelKind

pub record ChannelRef : Type 0 where
  pub kind : ChannelKind
  pub external_conversation_id : String

pub record ParticipantRef : Type 0 where
  pub external_participant_id : String
  pub display_name : Option String

pub data TrustLevel : Type 0 where
  owner trusted acquaintance stranger : TrustLevel

pub record InfoBoundary : Type 0 where
  pub shared_topics : List String
  pub forbidden_topics : List String
  pub share_active_state : Bool
  pub share_commitments : Bool

pub record RelationshipEntry : Type 0 where
  pub person_id : String
  pub display_name : String
  pub trust_level : TrustLevel
  pub info_boundary : InfoBoundary
  pub interaction_stance : String
  pub notes : Option String

pub record MemoryCitationRef : Type 0 where
  pub thread_id : ThreadId
  pub turn_id : Option TurnId
  pub artifact_id : Option ArtifactId
  pub note : String

pub data MemoryTopicStatus : Type 0 where
  active resolved stale : MemoryTopicStatus
