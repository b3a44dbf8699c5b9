-- ===== src/Runtime/Surface/People/RoundTrip.antt =====
-- A boundary that is stored and read again.
use liz.Prelude.{◌≡◌, refl, Bool, true, false, not, ◌||◌, ◌==◌, arith, if◌then◌else◌}
use liz.Text.{contains, starts_with}
use liz.Protocol.Surface.{PersonBoundary}
use liz.Runtime.Surface.People.{
  is_owner, is_blank, filter, actor_kind_of, stance_of, person_boundary_from_relationship,
  relationship_entry_from_boundary,
}

-- Whether the stored stance names an agent.
unfoldable pub is_agent_stance : PersonBoundary → Bool
is_agent_stance person =
    if is_blank person.interaction_stance
    then person.actor_kind == "external_agent"
    else contains person.interaction_stance "agent"

bounded-agent : contains "bounded_contact" "agent" ≡ false
unfolding contains
bounded-agent = refl

scoped-agent : contains "agent_task_scoped" "agent" ≡ true
unfolding contains
scoped-agent = refl

contains-stance_of :
    (person : PersonBoundary) → contains (stance_of person) "agent" ≡ is_agent_stance person
unfolding stance_of is_agent_stance
contains-stance_of person = ground (arith, bounded-agent, scoped-agent)

-- A boundary that is stored and read again keeps its id, name, trust, topics and what it shares. It
-- asks for the owner's confirmation just when the trust is not the owner's; its notes are those
-- given unless they are blank; its stance is the one given, or the one for its kind where that is
-- blank; and it is an external agent just when the id starts with `agent:`, or the stance given
-- names an agent, or that stance is blank and the kind given is an external agent. Else it is a
-- human.
pub boundary-relationship :
    (person : PersonBoundary)
    → person_boundary_from_relationship (relationship_entry_from_boundary person) ≡ record person {
      actor_kind =
          if is_agent_stance person || starts_with "agent:" person.person_id
          then "external_agent"
          else "human";
      requires_owner_confirmation = not (is_owner person.trust_level);
      interaction_stance = stance_of person;
      notes = filter (λ notes. not (is_blank notes)) person.notes;
    }
unfolding person_boundary_from_relationship relationship_entry_from_boundary actor_kind_of
boundary-relationship person = rw (contains-stance_of person) refl
