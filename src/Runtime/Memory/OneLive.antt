-- ===== src/Runtime/Memory/OneLive.antt =====
-- The facts through a whole compilation: what it keeps of them, and that no subject gets two live ones.
use liz.Prelude.{
  ◌≤◌, String, ◌≡◌, refl, Bool, true, false, Option, none, some, List, [], ◌∷◌, ◌++◌, arith,
}
use liz.Protocol.Ids.{MemoryFactId, Timestamp}
use liz.Storage.{StoredMemoryFact}
use liz.Runtime.Error.{RuntimeResult, ok, err, is_ok}
use liz.Runtime.State.{RuntimeCoordinator}
use liz.Runtime.Exec.{Exec, pure, proceed, ◌>>=◌}
use liz.Runtime.Ids.{next_memory_fact_id}
use liz.Runtime.Memory.{
  FactSpec, Ledger, is_none, is_live, find_live, change_live, fact_of, refreshed, superseded,
  upsert_at, upsert_fact, upsert_facts, invalidate_facts, invalidate_all,
}
use liz.Runtime.Memory.Facts.{live_count, ledger_of, fresh, live_count-upsert_fact}

-- A fact after a change: what it says stays, and where it was invalidated before, all of it.
abbrev pub SameFact : StoredMemoryFact → StoredMemoryFact → Type 0
SameFact old new =
    (new.id ≡ old.id)
    × (new.kind ≡ old.kind)
    × (new.subject ≡ old.subject)
    × (new.value ≡ old.value)
    × (is_none old.invalidated_at ≡ false → new ≡ old)

-- The new facts begin with the old ones, each the same fact.
unfoldable pub Keeps : List StoredMemoryFact → List StoredMemoryFact → Type 0
Keeps [] new = Unit
Keeps (fact ∷ old) [] = ⊥
Keeps (fact ∷ old) (fact' ∷ new) = SameFact fact fact' × Keeps old new

SameFact-refl : (fact : StoredMemoryFact) → SameFact fact fact
SameFact-refl fact = (refl, refl, refl, refl, λ h. refl)

same_after :
    (a b c : StoredMemoryFact)
    → b ≡ a
    → is_none a.invalidated_at ≡ false
    → (is_none b.invalidated_at ≡ false → c ≡ b)
    → c ≡ a
same_after a b c e h k = ground arith

SameFact-trans : (a b c : StoredMemoryFact) → SameFact a b → SameFact b c → SameFact a c
SameFact-trans a b c p q = (cc, cc, cc, cc, λ h. same_after a b c (p.4 h) h q.4)

pub Keeps-refl : (facts : List StoredMemoryFact) → Keeps facts facts
unfolding Keeps
Keeps-refl [] = tt
Keeps-refl (fact ∷ facts) = (SameFact-refl fact, Keeps-refl facts)

Keeps-trans : (a b c : List StoredMemoryFact) → Keeps a b → Keeps b c → Keeps a c
unfolding Keeps
Keeps-trans [] b c p q = tt
Keeps-trans (x ∷ a) [] c p q = elim p [ ]
Keeps-trans (x ∷ a) (y ∷ b) [] p q = elim q [ ]
Keeps-trans (x ∷ a) (y ∷ b) (z ∷ c) p q = (SameFact-trans x y z p.0 q.0, Keeps-trans a b c p.1 q.1)

Keeps-append : (a b more : List StoredMemoryFact) → Keeps a b → Keeps a (b ++ more)
unfolding Keeps
Keeps-append [] b more p = tt
Keeps-append (x ∷ a) [] more p = elim p [ ]
Keeps-append (x ∷ a) (y ∷ b) more p = (p.0, Keeps-append a b more p.1)

Keeps-change_live :
    (subject : String) (change : StoredMemoryFact → StoredMemoryFact)
    (facts : List StoredMemoryFact)
    → ((fact : StoredMemoryFact) → is_live subject fact ≡ true → SameFact fact (change fact))
    → Keeps facts (change_live subject change facts)
unfolding Keeps change_live
Keeps-change_live subject change [] h = tt
Keeps-change_live subject change (fact ∷ facts) h =
    ground (
      arith,
      h fact,
      SameFact-refl fact,
      Keeps-refl facts,
      Keeps-change_live subject change facts h,
    )

abbrev facts_of :
    List StoredMemoryFact
    → RuntimeResult (List StoredMemoryFact × List MemoryFactId)
    → List StoredMemoryFact
facts_of facts (ok done) = done.0
facts_of facts (err e) = facts

module _ (drops : StoredMemoryFact → Bool) (now : Timestamp) where
  is_ok-invalidate_facts :
      (facts : List StoredMemoryFact) (s : RuntimeCoordinator)
      → (is_ok (invalidate_facts drops now facts s).0 ≡ true)
        × ((invalidate_facts drops now facts s).1.stores ≡ s.stores)
  unfolding invalidate_facts next_memory_fact_id
  is_ok-invalidate_facts [] s = (refl, refl)
  is_ok-invalidate_facts (fact ∷ facts) s = ground (
    arith,
    is_ok-invalidate_facts facts s,
    is_ok-invalidate_facts facts (next_memory_fact_id s).1,
  )

  live_count-invalidate_facts :
      (facts : List StoredMemoryFact) (s : RuntimeCoordinator) (j : String)
      → live_count j (facts_of facts (invalidate_facts drops now facts s).0) ≤ live_count j facts
  unfolding invalidate_facts next_memory_fact_id live_count
  live_count-invalidate_facts [] s j = omega arith
  live_count-invalidate_facts (fact ∷ facts) s j = ground (
    arith,
    live_count-invalidate_facts facts s j,
    live_count-invalidate_facts facts (next_memory_fact_id s).1 j,
  )

  Keeps-invalidate_facts :
      (facts : List StoredMemoryFact) (s : RuntimeCoordinator)
      → Keeps facts (facts_of facts (invalidate_facts drops now facts s).0)
  unfolding invalidate_facts next_memory_fact_id Keeps
  Keeps-invalidate_facts [] s = tt
  Keeps-invalidate_facts (fact ∷ facts) s = ground (
    arith,
    Keeps-refl facts,
    SameFact-refl fact,
    Keeps-invalidate_facts facts s,
    Keeps-invalidate_facts facts (next_memory_fact_id s).1,
  )

-- A change of the facts that is_ok, calls no store, keeps the facts there were and gives no subject
-- a second live one.
abbrev pub IsSound :
    Ledger → RuntimeCoordinator → RuntimeResult Ledger × RuntimeCoordinator → Type 0
IsSound ledger s (result, after) =
    (is_ok result ≡ true)
    × (after.stores ≡ s.stores)
    × Keeps ledger.facts (ledger_of ledger result).facts
    × ((j : String)
        → live_count j ledger.facts ≤ 1
        → live_count j (ledger_of ledger result).facts ≤ 1)

pub record Sound (change : Ledger → Exec Ledger) : Type 0 where
  pub holds : (ledger : Ledger) (s : RuntimeCoordinator) → IsSound ledger s (change ledger s)

IsSound-trans :
    (ledger changed : Ledger) (s s' : RuntimeCoordinator)
    (r : RuntimeResult Ledger × RuntimeCoordinator)
    → IsSound ledger s (ok changed, s')
    → IsSound changed s' r
    → IsSound ledger s r
IsSound-trans ledger changed s s' (err e, s2) p q = ground arith
IsSound-trans ledger changed s s' (ok last, s2) p q =
    (refl, cc, Keeps-trans ledger.facts changed.facts last.facts p.2 q.2, λ j h. q.3 j (p.3 j h))

IsSound-then :
    (ledger : Ledger) (s : RuntimeCoordinator) (r : RuntimeResult Ledger × RuntimeCoordinator)
    (next : Ledger → Exec Ledger)
    → IsSound ledger s r
    → Sound next
    → IsSound ledger s (proceed r next)
IsSound-then ledger s (err e, s') next p q = ground arith
IsSound-then ledger s (ok changed, s') next p q =
    IsSound-trans ledger changed s s' (next changed s') p (q.holds changed s')

pub Sound-then :
    {first next : Ledger → Exec Ledger}
    → Sound first
    → Sound next
    → Sound (λ ledger. first ledger >>= next)
unfolding ◌>>=◌
Sound-then {first} {next} p q = record {
  holds = λ ledger s. IsSound-then ledger s (first ledger s) next (p.holds ledger s) q;
}

SameFact-refreshed :
    (spec : FactSpec) (subject : String) (fact : StoredMemoryFact)
    → is_live subject fact ≡ true
    → SameFact fact (refreshed spec fact)
SameFact-refreshed spec subject fact h = (refl, refl, refl, refl, λ n. ground arith)

SameFact-superseded :
    (now : Timestamp) (id : MemoryFactId) (subject : String) (fact : StoredMemoryFact)
    → is_live subject fact ≡ true
    → SameFact fact (superseded now id fact)
SameFact-superseded now id subject fact h = (refl, refl, refl, refl, λ n. ground arith)

Keeps-upsert_at :
    (spec : FactSpec) (ledger : Ledger) (s : RuntimeCoordinator) (o : Option StoredMemoryFact)
    → Keeps ledger.facts (ledger_of ledger (upsert_at spec ledger o s).0).facts
unfolding upsert_at next_memory_fact_id
Keeps-upsert_at spec ledger s none =
    Keeps-append ledger.facts ledger.facts _ (Keeps-refl ledger.facts)
Keeps-upsert_at spec ledger s (some x) =
    let id = fresh s in
    ground (
      arith,
      Keeps-change_live spec.subject (refreshed spec) ledger.facts
          (SameFact-refreshed spec spec.subject),
      Keeps-append ledger.facts
          (change_live spec.subject (superseded spec.updated_at id) ledger.facts)
          (fact_of spec id ∷ [])
          (Keeps-change_live spec.subject (superseded spec.updated_at id) ledger.facts
            (SameFact-superseded spec.updated_at id spec.subject)),
    )

Keeps-upsert_fact :
    (spec : FactSpec) (ledger : Ledger) (s : RuntimeCoordinator)
    → Keeps ledger.facts (ledger_of ledger (upsert_fact spec ledger s).0).facts
unfolding upsert_fact
Keeps-upsert_fact spec ledger s =
    Keeps-upsert_at spec ledger s (find_live spec.subject ledger.facts)

Sound-upsert_fact : (spec : FactSpec) → Sound (upsert_fact spec)
unfolding upsert_fact upsert_at next_memory_fact_id
Sound-upsert_fact spec = record {
  holds = λ ledger s. (
    ground arith,
    ground arith,
    Keeps-upsert_fact spec ledger s,
    λ j h. live_count-upsert_fact spec ledger s j h,
  );
}

pub Sound-pure : Sound pure
unfolding pure
Sound-pure = record { holds = λ ledger s. (refl, refl, Keeps-refl ledger.facts, λ j h. h) }

pub Sound-upsert_facts : (specs : List FactSpec) → Sound (upsert_facts specs)
unfolding upsert_facts
Sound-upsert_facts [] = Sound-pure
Sound-upsert_facts (spec ∷ specs) = Sound-then (Sound-upsert_fact spec) (Sound-upsert_facts specs)

pub Sound-invalidate_all :
    (drops : StoredMemoryFact → Bool) (now : Timestamp) → Sound (invalidate_all drops now)
unfolding invalidate_all ◌>>=◌
Sound-invalidate_all drops now = record {
  holds = λ ledger s. (
    ground (arith, is_ok-invalidate_facts drops now ledger.facts s),
    ground (arith, is_ok-invalidate_facts drops now ledger.facts s),
    ground (
      arith,
      Keeps-invalidate_facts drops now ledger.facts s,
      is_ok-invalidate_facts drops now ledger.facts s,
    ),
    λ j h. ground (
      arith,
      live_count-invalidate_facts drops now ledger.facts s j,
      is_ok-invalidate_facts drops now ledger.facts s,
    ),
  );
}
