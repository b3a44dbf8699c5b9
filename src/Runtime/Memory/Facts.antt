-- ===== src/Runtime/Memory/Facts.antt =====
-- The live facts through the changes of a ledger.
use liz.Prelude.{
  Bool, ℕ, suc, ◌+◌, ◌%◌, ◌^◌, ◌≤◌, String, ◌≡◌, ◌≢◌, refl, true, false, Option, none, some, List,
  [], ◌∷◌, ◌++◌, ◌==◌, arith, eq_iff, eq_refl, if◌then◌else◌, length, or_else, is_some_and,
}
use liz.Protocol.Ids.{MemoryFactId, Timestamp}
use liz.Storage.{StoredMemoryFact}
use liz.Runtime.Error.{RuntimeResult, ok, err}
use liz.Runtime.State.{RuntimeCoordinator}
use liz.Runtime.Ids.{next_memory_fact_id, identifier}
use liz.Runtime.Memory.{
  FactSpec, Ledger, is_live, find_live, change_live, fact_of, refreshed, superseded, says_same,
  upsert_at, upsert_fact,
}

-- How many facts about a subject are live.
unfoldable pub live_count : String → List StoredMemoryFact → ℕ
live_count subject [] = 0
live_count subject (fact ∷ facts) =
    if is_live subject fact then suc (live_count subject facts) else live_count subject facts

-- No subject has two live facts.
abbrev pub HasOneLive : List StoredMemoryFact → Type 0
HasOneLive facts = (subject : String) → live_count subject facts ≤ 1

pub live_count-append :
    (j : String) (facts : List StoredMemoryFact) (fact : StoredMemoryFact)
    → live_count j (facts ++ fact ∷ []) ≡ live_count j facts + live_count j (fact ∷ [])
unfolding live_count
live_count-append j [] fact = omega arith
live_count-append j (g ∷ facts) fact = ground (arith, live_count-append j facts fact)

pub find_live-none :
    (j : String) (facts : List StoredMemoryFact) → find_live j facts ≡ none → live_count j facts ≡ 0
unfolding find_live live_count
find_live-none j [] h = refl
find_live-none j (fact ∷ facts) h = ground (arith, find_live-none j facts)

pub live_count-superseded :
    (j subject : String) (now : Timestamp) (id : MemoryFactId) (existing : StoredMemoryFact)
    (facts : List StoredMemoryFact)
    → find_live subject facts ≡ some existing
    → live_count j (change_live subject (superseded now id) facts) + (if subject == j then 1 else 0)
      ≡ live_count j facts
unfolding find_live live_count change_live
live_count-superseded j subject now id existing [] h = cc
live_count-superseded j subject now id existing (fact ∷ facts) h = ground (
  arith,
  live_count-superseded j subject now id existing facts,
  eq_iff fact.subject subject,
  eq_iff fact.subject j,
  eq_iff subject j,
)

pub live_count-refreshed :
    (j subject : String) (spec : FactSpec) (facts : List StoredMemoryFact)
    → live_count j (change_live subject (refreshed spec) facts) ≡ live_count j facts
unfolding live_count change_live
live_count-refreshed j subject spec [] = refl
live_count-refreshed j subject spec (fact ∷ facts) =
    ground (arith, live_count-refreshed j subject spec facts)

find_live-append :
    (j : String) (facts : List StoredMemoryFact) (fact : StoredMemoryFact)
    → find_live j (facts ++ fact ∷ []) ≡ or_else (find_live j facts) (find_live j (fact ∷ []))
unfolding find_live
find_live-append j [] fact = refl
find_live-append j (g ∷ facts) fact = ground (arith, find_live-append j facts fact)

live_count-zero :
    (j : String) (facts : List StoredMemoryFact) → live_count j facts ≡ 0 → find_live j facts ≡ none
unfolding find_live live_count
live_count-zero j [] h = refl
live_count-zero j (fact ∷ facts) h = ground (arith, live_count-zero j facts)

find_live-superseded :
    (j subject : String) (now : Timestamp) (id : MemoryFactId) (facts : List StoredMemoryFact)
    → j ≢ subject
    → find_live j (change_live subject (superseded now id) facts) ≡ find_live j facts
unfolding find_live change_live
find_live-superseded j subject now id [] h = refl
find_live-superseded j subject now id (fact ∷ facts) h = ground (
  arith,
  find_live-superseded j subject now id facts h,
  eq_iff fact.subject subject,
  eq_iff fact.subject j,
)

find_live-refreshed :
    (j subject : String) (spec : FactSpec) (existing : StoredMemoryFact)
    (facts : List StoredMemoryFact)
    → find_live subject facts ≡ some existing
    → find_live j (change_live subject (refreshed spec) facts)
      ≡ (if subject == j then some (refreshed spec existing) else find_live j facts)
unfolding find_live change_live
find_live-refreshed j subject spec existing [] h = cc
find_live-refreshed j subject spec existing (fact ∷ facts) h = ground (
  arith,
  find_live-refreshed j subject spec existing facts,
  eq_iff fact.subject subject,
  eq_iff fact.subject j,
  eq_iff subject j,
)

length-change_live :
    (subject : String) (change : StoredMemoryFact → StoredMemoryFact)
    (facts : List StoredMemoryFact)
    → length (change_live subject change facts) ≡ length facts
unfolding change_live
length-change_live subject change [] = refl
length-change_live subject change (fact ∷ facts) =
    ground (arith, length-change_live subject change facts)

live_count-fact_of :
    (j : String) (spec : FactSpec) (id : MemoryFactId)
    → live_count j (fact_of spec id ∷ []) ≡ (if spec.subject == j then 1 else 0)
unfolding live_count
live_count-fact_of j spec id = ground arith

find_live-fact_of :
    (j : String) (spec : FactSpec) (id : MemoryFactId)
    → find_live j (fact_of spec id ∷ [])
      ≡ (if spec.subject == j then some (fact_of spec id) else none)
unfolding find_live
find_live-fact_of j spec id = ground arith

abbrev pub ledger_of : Ledger → RuntimeResult Ledger → Ledger
ledger_of ledger (ok changed) = changed
ledger_of ledger (err e) = ledger

pub live_count-upsert_fact :
    (spec : FactSpec) (ledger : Ledger) (s : RuntimeCoordinator) (j : String)
    → live_count j ledger.facts ≤ 1
    → live_count j (ledger_of ledger (upsert_fact spec ledger s).0).facts ≤ 1
unfolding upsert_fact upsert_at next_memory_fact_id
live_count-upsert_fact spec ledger s j h = grind (
  arith,
  live_count-append,
  live_count-fact_of,
  live_count-superseded,
  live_count-refreshed,
  find_live-none,
  eq_iff spec.subject j,
)

says_same-fact_of : (spec : FactSpec) (id : MemoryFactId) → says_same spec (fact_of spec id) ≡ true
says_same-fact_of spec id = ground (arith, eq_refl spec.value)

says_same-refreshed :
    (spec : FactSpec) (fact : StoredMemoryFact)
    → says_same spec (refreshed spec fact) ≡ says_same spec fact
says_same-refreshed spec fact = refl

module _ (spec : FactSpec) (facts : List StoredMemoryFact) where
  find_live-refresh :
      (j : String) (x : StoredMemoryFact)
      → find_live spec.subject facts ≡ some x
      → find_live j (change_live spec.subject (refreshed spec) facts)
        ≡ (if spec.subject == j then some (refreshed spec x) else find_live j facts)
  find_live-refresh j x h = find_live-refreshed j spec.subject spec x facts h

  find_live-supersede :
      (j : String) (x : StoredMemoryFact) (now : Timestamp) (id : MemoryFactId)
      → live_count spec.subject facts ≤ 1
      → find_live spec.subject facts ≡ some x
      → find_live j (change_live spec.subject (superseded now id) facts ++ fact_of spec id ∷ [])
        ≡ (if spec.subject == j then some (fact_of spec id) else find_live j facts)
  find_live-supersede j x now id c h =
      let changed = change_live spec.subject (superseded now id) facts in
      ground (
        arith,
        find_live-append j changed (fact_of spec id),
        find_live-fact_of j spec id,
        find_live-superseded j spec.subject now id facts,
        live_count-superseded spec.subject spec.subject now id x facts h,
        live_count-zero spec.subject changed,
        eq_refl spec.subject,
        eq_iff spec.subject j,
      )

  find_live-add :
      (j : String) (id : MemoryFactId)
      → find_live spec.subject facts ≡ none
      → find_live j (facts ++ fact_of spec id ∷ [])
        ≡ (if spec.subject == j then some (fact_of spec id) else find_live j facts)
  find_live-add j id h = ground (
    arith,
    find_live-append j facts (fact_of spec id),
    find_live-fact_of j spec id,
    eq_iff spec.subject j,
  )

-- The id that the next fact gets.
abbrev pub fresh : RuntimeCoordinator → MemoryFactId
fresh s = identifier "fact" (s.ids.clock s.ids.readings) ((s.ids.sequence + 1) % 2 ^ 64)

module _ (spec : FactSpec) (ledger : Ledger) (s : RuntimeCoordinator)
    (h : live_count spec.subject ledger.facts ≤ 1) where
  find_live-upsert_at :
      (j : String) (o : Option StoredMemoryFact)
      → find_live spec.subject ledger.facts ≡ o
      → let found = find_live j (ledger_of ledger (upsert_at spec ledger o s).0).facts in
        (spec.subject == j ≡ true → is_some_and (says_same spec) found ≡ true)
        × (spec.subject == j ≡ false → found ≡ find_live j ledger.facts)
  unfolding upsert_at next_memory_fact_id
  find_live-upsert_at j none e =
      let id = fresh s in
      ground (arith, find_live-add spec ledger.facts j id e, says_same-fact_of spec id)
  find_live-upsert_at j (some x) e =
      let id = fresh s in
      ground (
        arith,
        find_live-refresh spec ledger.facts j x e,
        find_live-supersede spec ledger.facts j x spec.updated_at id h e,
        says_same-fact_of spec id,
        says_same-refreshed spec x,
      )

is_some_and-some :
    (p : StoredMemoryFact → Bool) (o : Option StoredMemoryFact) (fact : StoredMemoryFact)
    → o ≡ some fact
    → is_some_and p o ≡ true
    → p fact ≡ true
is_some_and-some p none fact e h = cc
is_some_and-some p (some x) fact e h = ground arith

says_same-eq :
    (spec : FactSpec) (fact : StoredMemoryFact)
    → says_same spec fact ≡ true
    → (fact.value ≡ spec.value) × (fact.kind ≡ spec.kind)
says_same-eq spec fact h = (ground (arith, eq_iff fact.value spec.value), ground arith)

-- Putting a fact succeeds and calls no store, and where no subject had two live facts, none has after
-- it. The live fact of the subject then has the kind and the value that were put, and every other
-- subject has the live fact it had. Where the live fact said the same before, no fact is added.
pub upsert_fact_lem :
    (spec : FactSpec) (ledger : Ledger) (s : RuntimeCoordinator)
    → HasOneLive ledger.facts
    → let (result, after) = upsert_fact spec ledger s in
      let new = ledger_of ledger result in
      (result ≡ ok new)
      × (after.stores ≡ s.stores)
      × HasOneLive new.facts
      × (is_some_and (says_same spec) (find_live spec.subject new.facts) ≡ true)
      × ((fact : StoredMemoryFact)
          → find_live spec.subject new.facts ≡ some fact
          → (fact.value ≡ spec.value) × (fact.kind ≡ spec.kind))
      × ((j : String) → j ≢ spec.subject → find_live j new.facts ≡ find_live j ledger.facts)
      × ((fact : StoredMemoryFact)
          → find_live spec.subject ledger.facts ≡ some fact
          → says_same spec fact ≡ true
          → length new.facts ≡ length ledger.facts)
unfolding upsert_fact upsert_at next_memory_fact_id
upsert_fact_lem spec ledger s h = (
  ground arith,
  ground arith,
  λ j. live_count-upsert_fact spec ledger s j (h j),
  live_now,
  λ fact e. says_same-eq spec fact (is_some_and-some (says_same spec) _ fact e live_now),
  λ j n.
      (find_live-upsert_at spec ledger s (h spec.subject) j _ refl).1
        (ground (arith, eq_iff spec.subject j)),
  grind (arith, length-change_live),
)
  where
    live_now :
        is_some_and
          (says_same spec)
          (find_live spec.subject (ledger_of ledger (upsert_fact spec ledger s).0).facts)
        ≡ true
    live_now =
        unfold upsert_fact in
        (find_live-upsert_at spec ledger s (h spec.subject) spec.subject _ refl).0
          (eq_refl spec.subject)
