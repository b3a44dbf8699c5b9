-- ===== src/Protocol/Interaction.antt =====
-- The data of crates/liz-protocol/src/interaction.rs.
use liz.Prelude.{false, [], Bool, List, Option, String}
use liz.Protocol.Ids.{Timestamp}
use liz.Protocol.Memory.{ChannelRef}

pub record IngressRef : Type 0 where
  pub kind : String
  pub source_id : String
  pub conversation_id : Option String

pub data ActorKind : Type 0 where
  owner human_contact stranger external_agent local_node remote_node system_service webhook_source
        automation :
      ActorKind

pub record ActorRef : Type 0 where
  pub actor_id : String
  pub kind : ActorKind
  pub display_name : Option String
  pub proof : Option String

pub data AudienceVisibility : Type 0 where
  private direct group public machine : AudienceVisibility

pub record Audience : Type 0 where
  pub visibility : AudienceVisibility
  pub participants : List String

pub data InteractionRole : Type 0 where
  private_companion task_executor owner_delegate public_representative group_participant agent_peer
        agent_coordinator node_controller webhook_observer background_automation :
      InteractionRole

pub record AuthorityScope : Type 0 where
  pub can_speak_for_owner : Bool
  pub can_start_work : Bool
  pub can_call_tools : Bool
  pub can_write_memory : Bool
  pub requires_owner_confirmation : Bool

pub data EvidencePolicy : Type 0 where
  summary_only expandable hidden : EvidencePolicy

pub record DisclosurePolicy : Type 0 where
  pub allowed_topics : List String
  pub forbidden_topics : List String
  pub share_active_state : Bool
  pub share_commitments : Bool
  pub share_identity : Bool
  pub evidence_policy : EvidencePolicy

pub record Provenance : Type 0 where
  pub channel : Option ChannelRef
  pub received_at : Option Timestamp
  pub authenticated_by : Option String
  pub raw_event_ref : Option String

pub record InteractionContext : Type 0 where
  pub ingress : IngressRef
  pub actor : ActorRef
  pub audience : Audience
  pub role : InteractionRole
  pub authority : AuthorityScope
  pub disclosure : DisclosurePolicy
  pub task_mandate : Option String
  pub provenance : Provenance

pub data InboundEventAction : Type 0 where
  run_turn store_only notify_owner ignore : InboundEventAction

-- DisclosurePolicy::stranger_default.
abbrev pub stranger_disclosure : DisclosurePolicy
stranger_disclosure = record {
  allowed_topics = [];
  forbidden_topics = [];
  share_active_state = false;
  share_commitments = false;
  share_identity = false;
  evidence_policy = EvidencePolicy.hidden;
}
