-- ===== src/Runtime/OutputPolicy/Disclosure.antt =====
-- What `check` lets through, and what its redaction does.
use liz.Prelude.{String, ◌≡◌, refl, true, false}
use liz.Text.{to_ascii_lowercase, contains}
use liz.Text.Search.{replace_absent}
use liz.Protocol.Interaction.{InteractionContext}
use liz.Runtime.OutputPolicy.{
  OutputPolicyDecision, is_node, is_shared, redact_commitment_language, check,
}

-- Where no confirmation is required and the actor is no node, a message to a shared audience that
-- may not know commitments, which has the word in other spellings than `commitment` and
-- `Commitment` only, is reported as redacted and is the whole message.
pub check_redacted_whole :
    (context : InteractionContext) (output : String)
    → context.authority.requires_owner_confirmation ≡ false
    → is_node context.actor.kind ≡ false
    → is_shared context.audience.visibility ≡ true
    → context.disclosure.share_commitments ≡ false
    → contains (to_ascii_lowercase output) "commitment" ≡ true
    → contains output "commitment" ≡ false
    → contains output "Commitment" ≡ false
    → check context output ≡ OutputPolicyDecision.redacted output
unfolding check redact_commitment_language
check_redacted_whole context output a n v c l p q =
    rw
      (
        a,
        n,
        v,
        c,
        l,
        replace_absent output "commitment" "follow-up" p,
        replace_absent output "Commitment" "Follow-up" q,
      )
      refl
