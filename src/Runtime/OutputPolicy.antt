-- ===== src/Runtime/OutputPolicy.antt =====
-- `OutputPolicy` in crates/liz-app-server/src/runtime/output_policy.rs.
pub mod Disclosure
use liz.Prelude.{String, Bool, true, false, not, ◌&&◌, [], ◌∷◌, any, if◌then◌else◌}
use liz.Text.{to_ascii_lowercase, contains, replace}
use liz.Protocol.Interaction.{ActorKind, AudienceVisibility, InteractionContext}

pub data OutputPolicyDecision : Type 0 where
  allowed : OutputPolicyDecision
  redacted needs_owner_confirmation denied : String → OutputPolicyDecision

abbrev pub is_node : ActorKind → Bool
is_node ActorKind.remote_node = true
is_node ActorKind.local_node = true
is_node _ = false

abbrev pub is_shared : AudienceVisibility → Bool
is_shared AudienceVisibility.public = true
is_shared AudienceVisibility.group = true
is_shared _ = false

unfoldable pub mentions_private_identity : String → Bool
mentions_private_identity output =
    any (contains (to_ascii_lowercase output))
      ("owner prefers" ∷ "identity summary" ∷ "about you" ∷ [])

unfoldable pub redact_commitment_language : String → String
redact_commitment_language output =
    replace (replace output "commitment" "follow-up") "Commitment" "Follow-up"

unfoldable pub check : InteractionContext → String → OutputPolicyDecision
check context output =
    if context.authority.requires_owner_confirmation
    then OutputPolicyDecision.needs_owner_confirmation
        "Owner confirmation is required for this interaction."
    else if is_node context.actor.kind
        && not context.disclosure.share_identity
        && mentions_private_identity output
    then OutputPolicyDecision.denied "Node interactions cannot receive owner identity memory."
    else if is_shared context.audience.visibility
        && not context.disclosure.share_commitments
        && contains (to_ascii_lowercase output) "commitment"
    then OutputPolicyDecision.redacted (redact_commitment_language output)
    else OutputPolicyDecision.allowed
