-- ===== src/Runtime/Surface/People/Changes.antt =====
-- What the changes to the people surface do.
use liz.Prelude.{
  ℕ, String, ◌≡◌, ◌≢◌, ◌≤◌, ◌+◌, refl, false, none, some, List, [], ◌∷◌, ◌==◌, arith, eq_iff,
  length, retain, retain-sort_by, empty_of_length,
}
use liz.Protocol.Memory.{RelationshipEntry}
use liz.Protocol.Surface.{PersonBoundary}
use liz.Runtime.Error.{RuntimeError, ok, err}
use liz.Runtime.State.{RuntimeCoordinator}
use liz.Runtime.Stores.{read_global_memory, write_global_memory, memory_of}
use liz.Runtime.Surface.People.{
  by_name, relationship_entry_from_boundary, validate_person_boundary, build_people_surface,
  put_entry, with_boundary, upsert_people_surface, people_boundary_not_found, without_person,
  delete_people_surface,
}

-- The entries of a person.
unfoldable pub entries_of : String → List RelationshipEntry → List RelationshipEntry
entries_of id relationships = retain (λ (r : RelationshipEntry). r.person_id == id) relationships

-- No person has two entries.
abbrev pub HasDistinctPeople : List RelationshipEntry → Type 0
HasDistinctPeople relationships = (id : String) → length (entries_of id relationships) ≤ 1

entries_of-put_entry :
    (entry : RelationshipEntry) (j : String) (xs : List RelationshipEntry)
    → length (entries_of j xs) ≤ 1
    → (j ≡ entry.person_id → entries_of j (put_entry entry xs) ≡ entry ∷ [])
      × (j ≢ entry.person_id → entries_of j (put_entry entry xs) ≡ entries_of j xs)
unfolding entries_of retain put_entry
entries_of-put_entry entry j [] h = ground (arith, eq_iff entry.person_id j)
entries_of-put_entry entry j (x ∷ xs) h = ground (
  arith,
  entries_of-put_entry entry j xs,
  eq_iff entry.person_id j,
  eq_iff x.person_id j,
  eq_iff x.person_id entry.person_id,
  empty_of_length (entries_of j xs),
)

entries_of-with_boundary :
    (person : PersonBoundary) (j : String) (xs : List RelationshipEntry)
    → length (entries_of j xs) ≤ 1
    → (j ≡ person.person_id
        → entries_of j (with_boundary person xs) ≡ relationship_entry_from_boundary person ∷ [])
      × (j ≢ person.person_id → entries_of j (with_boundary person xs) ≡ entries_of j xs)
unfolding with_boundary relationship_entry_from_boundary entries_of
entries_of-with_boundary person j xs h =
    let entry = relationship_entry_from_boundary person in
    ground (
      arith,
      eq_iff j person.person_id,
      entries_of-put_entry entry j xs h,
      retain-sort_by by_name (λ r. r.person_id == j) (put_entry entry xs),
    )

with_boundary-distinct :
    (person : PersonBoundary) (xs : List RelationshipEntry)
    → HasDistinctPeople xs
    → HasDistinctPeople (with_boundary person xs)
with_boundary-distinct person xs h j =
    ground (arith, eq_iff j person.person_id, entries_of-with_boundary person j xs (h j), h j)

-- With a file system that answers, putting a boundary among the people refuses one that fails the
-- validation and leaves the files as they were. Else, where no person had two entries, no person
-- has two entries after it, the person has the entry made of the boundary, every other person has
-- the entry it had, nothing else of the memory on file has changed, and the answer is the surface
-- of the memory on file.
pub upsert_people_surface_lem :
    (person : PersonBoundary) (s : RuntimeCoordinator)
    → ((n : ℕ) → s.stores.faulty n ≡ false)
    → HasDistinctPeople (memory_of s.stores.paths).relationships
    → let (result, after) = upsert_people_surface person s in
      let old = memory_of s.stores.paths in
      let new = memory_of after.stores.paths in
      ((e : RuntimeError)
        → validate_person_boundary person ≡ some e
        → (result ≡ err e) × (after.stores.paths ≡ s.stores.paths))
      × (validate_person_boundary person ≡ none
          → (result ≡ ok (build_people_surface new))
            × HasDistinctPeople new.relationships
            × (entries_of person.person_id new.relationships
                ≡ relationship_entry_from_boundary person ∷ [])
            × ((j : String)
                → j ≢ person.person_id
                → entries_of j new.relationships ≡ entries_of j old.relationships)
            × (new ≡ record old { relationships = new.relationships }))
unfolding upsert_people_surface read_global_memory write_global_memory memory_of
upsert_people_surface_lem person s calm distinct =
    let old = (memory_of s.stores.paths).relationships in
    grind (
      arith,
      with_boundary-distinct person old distinct,
      λ (j : String). entries_of-with_boundary person j old (distinct j),
    )

without_person-others :
    (id j : String) (xs : List RelationshipEntry)
    → j ≢ id
    → entries_of j (without_person id xs) ≡ entries_of j xs
unfolding without_person entries_of retain
without_person-others id j [] h = refl
without_person-others id j (x ∷ xs) h =
    ground (arith, without_person-others id j xs h, eq_iff x.person_id id, eq_iff x.person_id j)

without_person-gone :
    (id : String) (xs : List RelationshipEntry) → entries_of id (without_person id xs) ≡ []
unfolding without_person entries_of retain
without_person-gone id [] = refl
without_person-gone id (x ∷ xs) = ground (arith, without_person-gone id xs, eq_iff x.person_id id)

length-without_person :
    (id : String) (xs : List RelationshipEntry)
    → length (without_person id xs) + length (entries_of id xs) ≡ length xs
unfolding without_person entries_of retain
length-without_person id [] = refl
length-without_person id (x ∷ xs) = ground (arith, length-without_person id xs)

-- With a file system that answers, deleting a person refuses one without an entry and leaves the
-- files as they were; else the person has no entry after it, every other person has the entries it
-- had, nothing else of the memory on file has changed, and the answer is the surface of the memory
-- on file.
pub delete_people_surface_lem :
    (id : String) (s : RuntimeCoordinator)
    → ((n : ℕ) → s.stores.faulty n ≡ false)
    → let (result, after) = delete_people_surface id s in
      let old = memory_of s.stores.paths in
      let new = memory_of after.stores.paths in
      (entries_of id old.relationships ≡ []
        → (result ≡ err people_boundary_not_found) × (after.stores.paths ≡ s.stores.paths))
      × (entries_of id old.relationships ≢ []
          → (result ≡ ok (build_people_surface new))
            × (entries_of id new.relationships ≡ [])
            × ((j : String)
                → j ≢ id
                → entries_of j new.relationships ≡ entries_of j old.relationships)
            × (new ≡ record old { relationships = new.relationships }))
unfolding delete_people_surface read_global_memory write_global_memory memory_of
delete_people_surface_lem id s calm =
    let old = (memory_of s.stores.paths).relationships in
    grind (
      arith,
      λ (j : String). without_person-others id j old,
      without_person-gone id old,
      length-without_person id old,
      empty_of_length (entries_of id old),
    )
