-- ===== src/Runtime/Memory.antt =====
-- The facts of the memory engine, crates/liz-app-server/src/runtime/memory.rs: how a compilation
-- puts them, replaces them and invalidates them.
pub mod Facts
pub mod Tokens
pub mod Compile
pub mod Apply
pub mod Proposals
pub mod OneLive
pub mod History
pub mod Recall
pub mod Evidence
pub mod Wakeup
mod Examples
use liz.Prelude.{
  ℕ, String, Bool, true, false, not, ◌&&◌, ◌||◌, Option, none, some, List, [], ◌∷◌, ◌++◌, ◌==◌, map,
  any, if◌then◌else◌, eqb,
}
use liz.Protocol.Ids.{ThreadId, MemoryFactId, Timestamp}
use liz.Protocol.Memory.{MemoryFactKind, MemoryCitationRef}
use liz.Storage.{StoredMemoryFact}
use liz.Runtime.Exec.{Exec, pure, ◌>>=◌, ◌>>◌}
use liz.Runtime.Ids.{next_memory_fact_id}

pub record FactSpec : Type 0 where
  pub kind : MemoryFactKind
  pub subject : String
  pub value : String
  pub keywords : List String
  pub related_thread_ids : List ThreadId
  pub citations : List MemoryCitationRef
  pub updated_at : Timestamp

-- The facts, and the ids of those that the compilation has updated and invalidated so far.
pub record Ledger : Type 0 where
  pub facts : List StoredMemoryFact
  pub updated_fact_ids : List MemoryFactId
  pub invalidated_fact_ids : List MemoryFactId

abbrev pub kind_index : MemoryFactKind → ℕ
kind_index MemoryFactKind.identity = 0
kind_index MemoryFactKind.active_state = 1
kind_index MemoryFactKind.commitment = 2
kind_index MemoryFactKind.decision = 3
kind_index MemoryFactKind.topic = 4
kind_index MemoryFactKind.procedure_candidate = 5
kind_index MemoryFactKind.keyword = 6

abbrev pub same_kind : MemoryFactKind → MemoryFactKind → Bool
same_kind a b = eqb (kind_index a) (kind_index b)

abbrev pub is_none : {A : Type 0} → Option A → Bool
is_none none = true
is_none (some a) = false

-- The fact is about the subject and is not invalidated.
abbrev pub is_live : String → StoredMemoryFact → Bool
is_live subject fact = fact.subject == subject && is_none fact.invalidated_at

unfoldable pub find_live : String → List StoredMemoryFact → Option StoredMemoryFact
find_live subject [] = none
find_live subject (fact ∷ facts) =
    let later = find_live subject facts in if is_live subject fact then some fact else later

-- `iter_mut().find(…)` with the change of the fact found.
unfoldable pub change_live :
    String → (StoredMemoryFact → StoredMemoryFact) → List StoredMemoryFact → List StoredMemoryFact
change_live subject change [] = []
change_live subject change (fact ∷ facts) =
    let later = change_live subject change facts in
    if is_live subject fact then change fact ∷ facts else fact ∷ later

abbrev pub fact_of : FactSpec → MemoryFactId → StoredMemoryFact
fact_of spec id = record {
  id = id;
  kind = spec.kind;
  subject = spec.subject;
  value = spec.value;
  keywords = spec.keywords;
  related_thread_ids = spec.related_thread_ids;
  citations = spec.citations;
  updated_at = spec.updated_at;
  invalidated_at = none;
  invalidated_by = none;
}

abbrev pub refreshed : FactSpec → StoredMemoryFact → StoredMemoryFact
refreshed spec existing = record existing {
  keywords = spec.keywords;
  related_thread_ids = spec.related_thread_ids;
  citations = spec.citations;
  updated_at = spec.updated_at;
}

abbrev pub superseded : Timestamp → MemoryFactId → StoredMemoryFact → StoredMemoryFact
superseded now id existing = record existing { invalidated_at = some now; invalidated_by = some id }

abbrev pub says_same : FactSpec → StoredMemoryFact → Bool
says_same spec existing = existing.value == spec.value && same_kind existing.kind spec.kind

-- The ledger after the live fact was refreshed, after it was replaced, and after one was added.
abbrev pub refresh : FactSpec → StoredMemoryFact → Ledger → Ledger
refresh spec existing ledger = record ledger {
  facts = change_live spec.subject (refreshed spec) ledger.facts;
  updated_fact_ids = ledger.updated_fact_ids ++ existing.id ∷ [];
}

abbrev pub supersede : FactSpec → StoredMemoryFact → MemoryFactId → Ledger → Ledger
supersede spec existing id ledger = record {
  facts =
      change_live spec.subject (superseded spec.updated_at id) ledger.facts ++ fact_of spec id ∷ [];
  updated_fact_ids = ledger.updated_fact_ids ++ id ∷ [];
  invalidated_fact_ids = ledger.invalidated_fact_ids ++ existing.id ∷ [];
}

abbrev pub add : FactSpec → MemoryFactId → Ledger → Ledger
add spec id ledger = record ledger {
  facts = ledger.facts ++ fact_of spec id ∷ [];
  updated_fact_ids = ledger.updated_fact_ids ++ id ∷ [];
}

-- What is done with the live fact of the subject, if there is one.
unfoldable pub upsert_at : FactSpec → Ledger → Option StoredMemoryFact → Exec Ledger
unfolding ◌>>=◌ change_live
upsert_at spec ledger (some existing) =
    if says_same spec existing
    then pure (refresh spec existing ledger)
    else do id ← next_memory_fact_id; pure (supersede spec existing id ledger)
upsert_at spec ledger none = do id ← next_memory_fact_id; pure (add spec id ledger)

unfoldable pub upsert_fact : FactSpec → Ledger → Exec Ledger
unfolding upsert_at find_live
upsert_fact spec ledger = upsert_at spec ledger (find_live spec.subject ledger.facts)

unfoldable pub upsert_facts : List FactSpec → Ledger → Exec Ledger
unfolding ◌>>=◌ upsert_fact
upsert_facts [] ledger = pure ledger
upsert_facts (spec ∷ specs) ledger = do
  changed ← upsert_fact spec ledger
  upsert_facts specs changed

-- A loop that invalidates the facts of a kind, each by an id of its own that no fact bears.
unfoldable pub invalidate_facts :
    (StoredMemoryFact → Bool)
    → Timestamp
    → List StoredMemoryFact
    → Exec (List StoredMemoryFact × List MemoryFactId)
unfolding ◌>>=◌
invalidate_facts drops now [] = pure ([], [])
invalidate_facts drops now (fact ∷ facts) =
    if drops fact && is_none fact.invalidated_at
    then (do
      id ← next_memory_fact_id
      rest ← invalidate_facts drops now facts
      pure (superseded now id fact ∷ rest.0, fact.id ∷ rest.1))
    else (do rest ← invalidate_facts drops now facts; pure (fact ∷ rest.0, rest.1))

unfoldable pub invalidate_all : (StoredMemoryFact → Bool) → Timestamp → Ledger → Exec Ledger
unfolding ◌>>=◌ invalidate_facts
invalidate_all drops now ledger = do
  done ← invalidate_facts drops now ledger.facts
  pure (record ledger {
    facts = done.0;
    invalidated_fact_ids = ledger.invalidated_fact_ids ++ done.1;
  })
