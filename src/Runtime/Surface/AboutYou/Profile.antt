-- ===== src/Runtime/Surface/AboutYou/Profile.antt =====
-- The update of the About You surface, seen as a map from subjects to values.
use Prim.Native.Char.{Char}
use liz.Prelude.{
  ℕ, String, ◌≡◌, refl, Bool, true, false, not, ◌&&◌, Option, none, some, List, [], ◌∷◌, ◌++◌, ◌==◌,
  map, arith, ◌∙◌, eq_iff, if◌then◌else◌, any, retain,
}
use liz.Text.{trim, is_empty}
use liz.Protocol.Ids.{Timestamp, MemoryFactId}
use liz.Protocol.Surface.{AboutYouItem, AboutYouUpdate}
use liz.Storage.{StoredMemoryFact, GlobalMemorySnapshot}
use liz.Runtime.Error.{RuntimeResult, ok, err}
use liz.Runtime.State.{RuntimeCoordinator}
use liz.Runtime.Stores.{read_global_memory, write_global_memory, memory_of}
use liz.Runtime.Ids.{now_timestamp, next_memory_fact_id}
use liz.Runtime.Surface.AboutYou.{
  is_none, is_listed, is_live_identity, item_of, summary_items, about_you_of,
  build_about_you_surface, invalidate, edit_live, identity_fact, put_value, put_item, put_items,
  update_about_you_surface,
}

abbrev or_later : Option String → Option String → Option String
or_later none later = later
or_later (some v) later = some v

-- The value that the surface shows for a subject: that of the first item made of a fact.
unfoldable pub shown : String → List AboutYouItem → Option String
shown subject [] = none
shown subject (item ∷ items) =
    let later = shown subject items in
    if item.key == subject && not (is_none item.source_fact_id) then some item.value else later

-- What an item asks of a subject: nothing, or to forget it, or to know the value.
unfoldable pub asked : String → AboutYouItem → Option String → Option String
asked subject item known =
    if not (item.key == "identity_summary")
      && not (is_empty (trim item.key))
      && trim item.key == subject
    then (if is_empty (trim item.value) then none else some (trim item.value))
    else known

unfoldable pub asked_all : String → List AboutYouItem → Option String → Option String
unfolding asked
asked_all subject [] known = known
asked_all subject (item ∷ items) known = asked_all subject items (asked subject item known)

-- The value of the first listed fact of a subject.
listed_value : String → List StoredMemoryFact → Option String
listed_value subject [] = none
listed_value subject (fact ∷ facts) =
    let later = listed_value subject facts in
    if is_listed fact && fact.subject == subject then some fact.value else later

shown-items :
    (subject : String) (facts : List StoredMemoryFact)
    → shown subject (map item_of (retain is_listed facts)) ≡ listed_value subject facts
unfolding shown listed_value retain
shown-items subject [] = refl
shown-items subject (fact ∷ facts) = ground (arith, shown-items subject facts)

shown-summary :
    (subject : String) (summary : Option String) (items : List AboutYouItem)
    → shown subject (summary_items summary ++ items) ≡ shown subject items
unfolding shown
shown-summary subject none items = refl
shown-summary subject (some s) items = ground arith

shown-about_you_of :
    (j : String) (snapshot : GlobalMemorySnapshot)
    → shown j (about_you_of snapshot).items ≡ listed_value j snapshot.facts
unfolding about_you_of
shown-about_you_of j snapshot =
    shown-summary j snapshot.identity_summary (map item_of (retain is_listed snapshot.facts))
    ∙ shown-items j snapshot.facts

summary-about_you_of :
    (snapshot : GlobalMemorySnapshot)
    → (about_you_of snapshot).identity_summary ≡ snapshot.identity_summary
unfolding about_you_of
summary-about_you_of snapshot = refl

module _ (subject : String) (now : Timestamp) (j : String) where
  listed_value-invalidate :
      (facts : List StoredMemoryFact)
      → listed_value j (map (invalidate subject now) facts)
        ≡ (if subject == j then none else listed_value j facts)
  unfolding listed_value invalidate
  listed_value-invalidate [] = ground arith
  listed_value-invalidate (fact ∷ facts) = ground (
    arith,
    listed_value-invalidate facts,
    eq_iff fact.subject j,
    eq_iff fact.subject subject,
    eq_iff subject j,
  )

not_listed :
    (subject : String) (facts : List StoredMemoryFact)
    → any (is_live_identity subject) facts ≡ false
    → listed_value subject facts ≡ none
unfolding any listed_value
not_listed subject [] h = refl
not_listed subject (fact ∷ facts) h = ground (arith, not_listed subject facts)

listed_value-append :
    (j : String) (facts : List StoredMemoryFact) (fact : StoredMemoryFact)
    → listed_value j (facts ++ fact ∷ [])
      ≡ or_later (listed_value j facts) (listed_value j (fact ∷ []))
unfolding listed_value
listed_value-append j [] fact = refl
listed_value-append j (g ∷ facts) fact = ground (arith, listed_value-append j facts fact)

abbrev facts_of : RuntimeResult (List StoredMemoryFact) → List StoredMemoryFact
facts_of (ok facts) = facts
facts_of (err e) = []

-- What putting items leaves: the same stores, and for each subject what is asked.
abbrev Puts :
    (String → Option String → Option String)
    → List StoredMemoryFact
    → RuntimeCoordinator
    → RuntimeResult (List StoredMemoryFact) × RuntimeCoordinator
    → Type 0
Puts ask facts s out =
    (out.0 ≡ ok (facts_of out.0))
    × (out.1.stores ≡ s.stores)
    × ((j : String) → listed_value j (facts_of out.0) ≡ ask j (listed_value j facts))

module _ (is_alphanumeric : Char → Bool) (to_lowercase : String → String) where
  listed_value-edit_live :
      (subject value : String) (now : Timestamp) (j : String) (facts : List StoredMemoryFact)
      → any (is_live_identity subject) facts ≡ true
      → listed_value j (edit_live is_alphanumeric to_lowercase subject value now facts)
        ≡ (if subject == j then some value else listed_value j facts)
  unfolding any listed_value edit_live
  listed_value-edit_live subject value now j [] h = cc
  listed_value-edit_live subject value now j (fact ∷ facts) h = ground (
    arith,
    listed_value-edit_live subject value now j facts,
    eq_iff fact.subject j,
    eq_iff fact.subject subject,
    eq_iff subject j,
  )

  listed_value-identity_fact :
      (subject value : String) (now : Timestamp) (id : MemoryFactId) (j : String)
      → listed_value j (identity_fact is_alphanumeric to_lowercase subject value now id ∷ [])
        ≡ (if subject == j then some value else none)
  unfolding listed_value identity_fact
  listed_value-identity_fact subject value now id j = refl

  put_value-Puts :
      (subject value : String) (now : Timestamp) (facts : List StoredMemoryFact)
      (s : RuntimeCoordinator)
      → Puts
          (λ j known. if subject == j then some value else known)
          facts
          s
          (put_value is_alphanumeric to_lowercase subject value now facts s)
  unfolding put_value next_memory_fact_id
  put_value-Puts subject value now facts s = grind (
    arith,
    listed_value-edit_live,
    listed_value-identity_fact,
    listed_value-append,
    not_listed,
    λ (j : String). eq_iff subject j,
  )

  put_item-Puts :
      (item : AboutYouItem) (now : Timestamp) (facts : List StoredMemoryFact)
      (s : RuntimeCoordinator)
      → Puts (λ j. asked j item) facts s (put_item is_alphanumeric to_lowercase item now facts s)
  unfolding put_item asked
  put_item-Puts item now facts s = grind (
    arith,
    put_value-Puts (trim item.key) (trim item.value) now facts s,
    listed_value-invalidate (trim item.key) now,
  )

  put_items-Puts :
      (items : List AboutYouItem) (now : Timestamp) (facts : List StoredMemoryFact)
      (s : RuntimeCoordinator)
      → Puts
          (λ j. asked_all j items)
          facts
          s
          (put_items is_alphanumeric to_lowercase items now facts s)
  unfolding put_items asked_all
  put_items-Puts [] now facts s = (refl, refl, λ j. refl)
  put_items-Puts (item ∷ items) now facts s =
      grind (arith, put_item-Puts item now facts s, put_items-Puts items now)

  -- With a file system that answers, after updating the About You surface each subject is shown with
  -- what the last of the items that names it asks for: no value where the item's is blank, else
  -- that value trimmed. A subject that no item names is shown as before; an item names its trimmed
  -- key, unless the key is `identity_summary` or blank. The summary is the one of the update, also
  -- where that has none, and the answer is the surface of the memory on file.
  pub update_about_you_surface_lem :
      (update : AboutYouUpdate) (s : RuntimeCoordinator)
      → ((n : ℕ) → s.stores.faulty n ≡ false)
      → let (result, after) = update_about_you_surface is_alphanumeric to_lowercase update s in
        let old = about_you_of (memory_of s.stores.paths) in
        let new = about_you_of (memory_of after.stores.paths) in
        (result ≡ ok new)
        × (new.identity_summary ≡ update.identity_summary)
        × ((subject : String)
            → shown subject new.items ≡ asked_all subject update.items (shown subject old.items))
  unfolding update_about_you_surface build_about_you_surface read_global_memory write_global_memory
      now_timestamp memory_of
  update_about_you_surface_lem update s calm =
      grind (arith, put_items-Puts update.items, shown-about_you_of, summary-about_you_of)
