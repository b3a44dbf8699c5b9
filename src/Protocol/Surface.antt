-- ===== src/Protocol/Surface.antt =====
-- The data of crates/liz-protocol/src/memory_surface.rs.
use liz.Prelude.{Bool, List, Option, String}
use liz.Protocol.Ids.{MemoryFactId, ThreadId, Timestamp}
use liz.Protocol.Memory.{InfoBoundary, MemoryCitationRef, TrustLevel}
use liz.Protocol.Thread.{ThreadStatus}

pub record AboutYouItem : Type 0 where
  pub key : String
  pub label : String
  pub value : String
  pub confirmed : Bool
  pub source_fact_id : Option MemoryFactId

pub record AboutYouSurface : Type 0 where
  pub identity_summary : Option String
  pub items : List AboutYouItem

pub record AboutYouUpdate : Type 0 where
  pub identity_summary : Option String
  pub items : List AboutYouItem

pub record CarryingItem : Type 0 where
  pub thread_id : ThreadId
  pub title : String
  pub status : ThreadStatus
  pub summary : Option String
  pub pending_commitments : List String
  pub suggested_next_step : Option String
  pub updated_at : Timestamp

pub record CarryingSurface : Type 0 where
  pub active : List CarryingItem
  pub completed : List CarryingItem

pub record KnowledgeItem : Type 0 where
  pub fact_id : MemoryFactId
  pub kind : String
  pub subject : String
  pub summary : String
  pub stale : Bool
  pub updated_at : Timestamp
  pub citations : List MemoryCitationRef

pub record KnowledgeSurface : Type 0 where
  pub items : List KnowledgeItem

pub record KnowledgeCorrection : Type 0 where
  pub fact_id : MemoryFactId
  pub corrected_value : String

pub record PersonBoundary : Type 0 where
  pub person_id : String
  pub display_name : String
  pub actor_kind : String
  pub trust_level : TrustLevel
  pub shared_topics : List String
  pub forbidden_topics : List String
  pub share_active_state : Bool
  pub share_commitments : Bool
  pub interaction_stance : String
  pub notes : Option String
  pub requires_owner_confirmation : Bool

pub record PeopleSurface : Type 0 where
  pub humans : List PersonBoundary
  pub external_agents : List PersonBoundary
  pub default_stranger_boundary : InfoBoundary
