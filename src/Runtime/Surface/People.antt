-- ===== src/Runtime/Surface/People.antt =====
-- The people surface of the coordinator: relationships, their boundaries, and the changes to them.
pub mod RoundTrip
pub mod Changes
use liz.Prelude.{
  String, Bool, true, false, not, ◌&&◌, ◌||◌, Option, none, some, List, [], ◌∷◌, ◌++◌, ◌==◌, map,
  if◌then◌else◌, is_some_and, any, retain, sort_by, length, eqb,
}
use liz.Text.{trim, is_empty, contains, starts_with, text_le}
use liz.Protocol.Memory.{RelationshipEntry, TrustLevel}
use liz.Protocol.Surface.{PersonBoundary, PeopleSurface}
use liz.Storage.{GlobalMemorySnapshot}
use liz.Runtime.Error.{RuntimeError, RuntimeResult, ok, err, invalid_state, not_found}
use liz.Runtime.Exec.{Exec, pure, raise, ◌>>=◌, ◌>>◌}
use liz.Runtime.Stores.{read_global_memory, write_global_memory}

abbrev pub is_owner : TrustLevel → Bool
is_owner TrustLevel.owner = true
is_owner _ = false

-- The kind of a person on file: an agent by the stance or by the id, else a human.
unfoldable pub actor_kind_of : RelationshipEntry → String
actor_kind_of relationship =
    if contains relationship.interaction_stance "agent"
      || starts_with "agent:" relationship.person_id
    then "external_agent"
    else "human"

unfoldable pub person_boundary_from_relationship : RelationshipEntry → PersonBoundary
unfolding actor_kind_of
person_boundary_from_relationship relationship = record {
  person_id = relationship.person_id;
  display_name = relationship.display_name;
  actor_kind = actor_kind_of relationship;
  trust_level = relationship.trust_level;
  shared_topics = relationship.info_boundary.shared_topics;
  forbidden_topics = relationship.info_boundary.forbidden_topics;
  share_active_state = relationship.info_boundary.share_active_state;
  share_commitments = relationship.info_boundary.share_commitments;
  interaction_stance = relationship.interaction_stance;
  notes = relationship.notes;
  requires_owner_confirmation = not (is_owner relationship.trust_level);
}

-- The stance that is stored: the one given, or one for the kind.
unfoldable pub stance_of : PersonBoundary → String
stance_of person =
    if is_empty (trim person.interaction_stance)
    then (if person.actor_kind == "external_agent" then "agent_task_scoped" else "bounded_contact")
    else person.interaction_stance

-- Option::filter.
abbrev pub filter : (String → Bool) → Option String → Option String
filter p none = none
filter p (some s) = if p s then some s else none

abbrev pub is_blank : String → Bool
is_blank s = is_empty (trim s)

unfoldable pub relationship_entry_from_boundary : PersonBoundary → RelationshipEntry
unfolding stance_of
relationship_entry_from_boundary person = record {
  person_id = person.person_id;
  display_name = person.display_name;
  trust_level = person.trust_level;
  info_boundary = record {
    shared_topics = person.shared_topics;
    forbidden_topics = person.forbidden_topics;
    share_active_state = person.share_active_state;
    share_commitments = person.share_commitments;
  };
  interaction_stance = stance_of person;
  notes = filter (λ notes. not (is_blank notes)) person.notes;
}

abbrev pub id_required : RuntimeError
id_required = invalid_state "people_boundary_id_required" "people boundary id must not be empty"

abbrev pub display_name_required : RuntimeError
display_name_required =
    invalid_state "people_boundary_display_name_required"
      "people boundary display name must not be empty"

abbrev pub actor_kind_invalid : RuntimeError
actor_kind_invalid =
    invalid_state "people_boundary_actor_kind_invalid"
      "people boundary actor kind must be human or external_agent"

-- The first fault of a boundary.
unfoldable pub validate_person_boundary : PersonBoundary → Option RuntimeError
validate_person_boundary person =
    if is_blank person.person_id
    then some id_required
    else if is_blank person.display_name
    then some display_name_required
    else if not (person.actor_kind == "human") && not (person.actor_kind == "external_agent")
    then some actor_kind_invalid
    else none

abbrev pub by_display_name : PersonBoundary → PersonBoundary → Bool
by_display_name a b = text_le a.display_name b.display_name

abbrev pub is_agent : PersonBoundary → Bool
is_agent boundary = boundary.actor_kind == "external_agent"

unfoldable pub build_people_surface : GlobalMemorySnapshot → PeopleSurface
unfolding person_boundary_from_relationship sort_by retain
build_people_surface snapshot =
    let boundaries = map person_boundary_from_relationship snapshot.relationships in
    record {
      humans = sort_by by_display_name (retain (λ b. not (is_agent b)) boundaries);
      external_agents = sort_by by_display_name (retain is_agent boundaries);
      default_stranger_boundary = snapshot.default_stranger_boundary;
    }

unfoldable pub read_people_surface : Exec PeopleSurface
unfolding ◌>>=◌ build_people_surface
read_people_surface = do snapshot ← read_global_memory; pure (build_people_surface snapshot)

-- The entry in the place of the first one with its id, or behind all.
unfoldable pub put_entry : RelationshipEntry → List RelationshipEntry → List RelationshipEntry
put_entry entry [] = entry ∷ []
put_entry entry (existing ∷ rest) =
    let later = put_entry entry rest in
    if existing.person_id == entry.person_id then entry ∷ rest else existing ∷ later

abbrev pub by_name : RelationshipEntry → RelationshipEntry → Bool
by_name a b = text_le a.display_name b.display_name

-- The relationships after a boundary was put among them.
unfoldable pub with_boundary : PersonBoundary → List RelationshipEntry → List RelationshipEntry
unfolding put_entry sort_by relationship_entry_from_boundary
with_boundary person relationships =
    sort_by by_name (put_entry (relationship_entry_from_boundary person) relationships)

unfoldable pub upsert_people_surface : PersonBoundary → Exec PeopleSurface
unfolding ◌>>=◌ validate_person_boundary with_boundary build_people_surface
upsert_people_surface person = do
  snapshot ← read_global_memory
  elim (validate_person_boundary person) [
    | some e ↦ raise e
    | none ↦ do
      let changed : GlobalMemorySnapshot = record snapshot {
        relationships = with_boundary person snapshot.relationships;
      }
      write_global_memory changed
      pure (build_people_surface changed)
  ]

abbrev pub people_boundary_not_found : RuntimeError
people_boundary_not_found = not_found "people_boundary_not_found" "people boundary does not exist"

-- `retain(|relationship| relationship.person_id != request.person_id)`.
unfoldable pub without_person : String → List RelationshipEntry → List RelationshipEntry
unfolding retain
without_person person_id relationships =
    retain (λ (r : RelationshipEntry). not (r.person_id == person_id)) relationships

unfoldable pub delete_people_surface : String → Exec PeopleSurface
unfolding ◌>>=◌ without_person build_people_surface
delete_people_surface person_id = do
  snapshot ← read_global_memory
  let kept = without_person person_id snapshot.relationships
  if eqb (length kept) (length snapshot.relationships) then raise people_boundary_not_found else do
    let changed : GlobalMemorySnapshot = record snapshot { relationships = kept }
    write_global_memory changed
    pure (build_people_surface changed)
