-- ===== src/Runtime/Inbound.antt =====
-- crates/liz-app-server/src/runtime/inbound.rs.
use liz.Prelude.{String, Bool, not, Option, if◌then◌else◌, is_some_and}
use liz.Text.{trim, is_empty}
use liz.Protocol.Interaction.{InteractionRole, InteractionContext, InboundEventAction}

pub record InboundEvent : Type 0 where
  pub interaction_context : InteractionContext
  pub text : Option String
  pub event_kind : String

-- Whether the event carries more than white space.
unfoldable pub has_text : Option String → Bool
has_text t = is_some_and (λ s. not (is_empty (trim s))) t

unfoldable pub classify_role : InteractionRole → Option String → InboundEventAction
unfolding has_text
classify_role InteractionRole.private_companion t =
    if has_text t then InboundEventAction.run_turn else InboundEventAction.store_only
classify_role InteractionRole.task_executor t =
    if has_text t then InboundEventAction.run_turn else InboundEventAction.store_only
classify_role InteractionRole.owner_delegate t =
    if has_text t then InboundEventAction.run_turn else InboundEventAction.store_only
classify_role InteractionRole.webhook_observer t = InboundEventAction.notify_owner
classify_role InteractionRole.background_automation t = InboundEventAction.notify_owner
classify_role InteractionRole.node_controller t = InboundEventAction.store_only
classify_role InteractionRole.agent_peer t = InboundEventAction.run_turn
classify_role InteractionRole.agent_coordinator t = InboundEventAction.run_turn
classify_role InteractionRole.public_representative t = InboundEventAction.run_turn
classify_role InteractionRole.group_participant t = InboundEventAction.run_turn

-- InboundEventRouter::classify.
unfoldable pub classify : InboundEvent → InboundEventAction
unfolding classify_role
classify event = classify_role event.interaction_context.role event.text
