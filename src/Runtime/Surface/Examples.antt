-- ===== src/Runtime/Surface/Examples.antt =====
-- Runs of the surfaces on a small global memory.
use Prim.Native.Char.{Char}
use liz.Prelude.{
  IsOrdered, ◌||◌, take, length, ℕ, String, ◌≡◌, ◌≢◌, refl, Bool, true, false, not, ◌||◌, Option,
  none, some, [], ◌∷◌, map, arith, any, retain, length, if◌then◌else◌,
}
use liz.Text.{trim, starts_with, contains}
use liz.Protocol.Memory.{MemoryFactKind, RelationshipEntry, TrustLevel}
use liz.Protocol.Surface.{AboutYouUpdate, PersonBoundary, KnowledgeItem, KnowledgeCorrection}
use liz.Storage.{GlobalMemorySnapshot, StoredMemoryFact, empty_snapshot, no_files}
use liz.Runtime.Error.{RuntimeError, ok, err}
use liz.Runtime.State.{RuntimeCoordinator, idle}
use liz.Runtime.Stores.{memory_of}
use liz.Runtime.Ids.{timestamp}
use liz.Runtime.Surface.People.{
  is_blank, filter, stance_of, relationship_entry_from_boundary, person_boundary_from_relationship,
  validate_person_boundary, build_people_surface, upsert_people_surface,
}
use liz.Runtime.Surface.People.RoundTrip.{is_agent_stance, boundary-relationship}
use liz.Runtime.Surface.People.Changes.{entries_of, HasDistinctPeople, upsert_people_surface_lem}
use liz.Runtime.Surface.AboutYou.{about_you_of, update_about_you_surface}
use liz.Runtime.Surface.AboutYou.Profile.{shown, asked_all, update_about_you_surface_lem}
use liz.Runtime.Surface.Knowledge.{
  memory_fact_kind_label, is_some, knowledge_of, find_fact, correct_knowledge_surface,
  knowledge_fact_not_found,
}
use liz.Runtime.Surface.Knowledge.Lists.{
  StandsBefore, knowledge_of_lem, correct_knowledge_surface_lem,
}

abbrev likes_tea : StoredMemoryFact
likes_tea = record {
  id = "fact_1";
  kind = MemoryFactKind.identity;
  subject = "drink";
  value = "tea";
  keywords = [];
  related_thread_ids = [];
  citations = [];
  updated_at = "unix:1.000000000";
  invalidated_at = none;
  invalidated_by = none;
}

abbrev old_topic : StoredMemoryFact
old_topic = record likes_tea {
  id = "fact_2";
  kind = MemoryFactKind.topic;
  invalidated_at = some "unix:2.000000000";
}

abbrev robot : PersonBoundary
robot = record {
  person_id = "r2";
  display_name = "R2";
  actor_kind = "external_agent";
  trust_level = TrustLevel.acquaintance;
  shared_topics = [];
  forbidden_topics = [];
  share_active_state = false;
  share_commitments = false;
  interaction_stance = "formal";
  notes = some " ";
  requires_owner_confirmation = false;
}

abbrev ann : RelationshipEntry
ann = record {
  person_id = "ann";
  display_name = "Ann";
  trust_level = TrustLevel.trusted;
  info_boundary = empty_snapshot.default_stranger_boundary;
  interaction_stance = "warm";
  notes = none;
}

abbrev memory : GlobalMemorySnapshot
memory = record empty_snapshot { facts = old_topic ∷ likes_tea ∷ []; relationships = ann ∷ [] }

abbrev ticks : ℕ → ℕ
ticks n = n

abbrev calm : ℕ → Bool
calm n = false

abbrev remembering : RuntimeCoordinator
remembering =
    idle ticks
      (record { paths = record no_files { global_memory = some memory }; faulty = calm; calls = 0 })

boundary-relationship_example :
    person_boundary_from_relationship (relationship_entry_from_boundary robot) ≡ record robot {
      actor_kind =
          if is_agent_stance robot || starts_with "agent:" "r2" then "external_agent" else "human";
      requires_owner_confirmation = true;
      interaction_stance = stance_of robot;
      notes = filter (λ notes. not (is_blank notes)) (some " ");
    }
boundary-relationship_example = boundary-relationship robot

-- An external agent with a stance that does not name an agent comes back as a human.
agent_lost :
    (person_boundary_from_relationship (relationship_entry_from_boundary robot)).actor_kind
    ≡ "human"
unfolding person_boundary_from_relationship relationship_entry_from_boundary contains trim
agent_lost = refl

memory_distinct : HasDistinctPeople (ann ∷ [])
unfolding entries_of retain
memory_distinct id = ground arith

upsert_people_surface_lem_example :
    let (result, after) = upsert_people_surface robot remembering in
    let new = memory_of after.stores.paths in
    ((e : RuntimeError)
      → validate_person_boundary robot ≡ some e
      → (result ≡ err e) × (after.stores.paths ≡ remembering.stores.paths))
    × (validate_person_boundary robot ≡ none
        → (result ≡ ok (build_people_surface new))
          × HasDistinctPeople new.relationships
          × (entries_of "r2" new.relationships ≡ relationship_entry_from_boundary robot ∷ [])
          × ((j : String) → j ≢ "r2" → entries_of j new.relationships ≡ entries_of j (ann ∷ []))
          × (new ≡ record memory { relationships = new.relationships }))
unfolding memory_of
upsert_people_surface_lem_example =
    upsert_people_surface_lem robot remembering (λ n. refl) memory_distinct

abbrev is_letter : Char → Bool
is_letter c = true

abbrev as_is : String → String
as_is s = s

abbrev edits : AboutYouUpdate
edits = record {
  identity_summary = some "a reader";
  items =
      record {
        key = " drink ";
        label = "";
        value = "coffee";
        confirmed = true;
        source_fact_id = none;
      }
      ∷ [];
}

update_about_you_surface_lem_example :
    let (result, after) = update_about_you_surface is_letter as_is edits remembering in
    let old = about_you_of (memory_of remembering.stores.paths) in
    let new = about_you_of (memory_of after.stores.paths) in
    (result ≡ ok new)
    × (new.identity_summary ≡ edits.identity_summary)
    × ((subject : String)
        → shown subject new.items ≡ asked_all subject edits.items (shown subject old.items))
update_about_you_surface_lem_example =
    update_about_you_surface_lem is_letter as_is edits remembering (λ n. refl)

abbrev one : Option ℕ
one = some 1

knowledge_of_lem_example :
    let items = (knowledge_of one memory).items in
    let item_of : StoredMemoryFact → KnowledgeItem = λ f. record {
      fact_id = f.id;
      kind = memory_fact_kind_label f.kind;
      subject = f.subject;
      summary = f.value;
      stale = is_some f.invalidated_at || is_some f.invalidated_by;
      updated_at = f.updated_at;
      citations = f.citations;
    } in
    IsOrdered StandsBefore items
    × ((n : ℕ) → one ≡ some n → items ≡ take n (knowledge_of none memory).items)
    × (one ≡ none
        → (length items ≡ length memory.facts)
          × ((p : KnowledgeItem → Bool) → any p items ≡ any p (map item_of memory.facts)))
knowledge_of_lem_example = knowledge_of_lem one memory

abbrev correction : KnowledgeCorrection
correction = record { fact_id = "fact_2"; corrected_value = "green tea" }

correct_knowledge_surface_lem_example :
    let (result, after) = correct_knowledge_surface correction remembering in
    let new = memory_of after.stores.paths in
    (find_fact "fact_2" memory.facts ≡ none
      → (result ≡ err knowledge_fact_not_found) × (after.stores.paths ≡ remembering.stores.paths))
    × ((fact : StoredMemoryFact)
        → find_fact "fact_2" memory.facts ≡ some fact
        → let better : StoredMemoryFact = record fact {
          value = "green tea";
          updated_at = timestamp 0;
        } in
          let answer : KnowledgeItem = record {
            fact_id = fact.id;
            kind = memory_fact_kind_label fact.kind;
            subject = fact.subject;
            summary = "green tea";
            stale = is_some fact.invalidated_at || is_some fact.invalidated_by;
            updated_at = timestamp 0;
            citations = fact.citations;
          } in
          (result ≡ ok answer)
          × (find_fact "fact_2" new.facts ≡ some better)
          × ((j : String) → j ≢ "fact_2" → find_fact j new.facts ≡ find_fact j memory.facts)
          × (length new.facts ≡ 2)
          × (new ≡ record memory { facts = new.facts }))
unfolding memory_of
correct_knowledge_surface_lem_example =
    correct_knowledge_surface_lem correction remembering (λ n. refl)
