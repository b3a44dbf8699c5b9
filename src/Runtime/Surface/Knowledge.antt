-- ===== src/Runtime/Surface/Knowledge.antt =====
-- What liz knows and carries: the facts of the global memory, and the threads that go on.
pub mod Lists
use liz.Prelude.{
  ℕ, String, Bool, true, false, not, ◌&&◌, ◌||◌, Option, none, some, List, [], ◌∷◌, ◌==◌, map,
  if◌then◌else◌, any, retain, sort_by, take, or_else,
}
use liz.Text.{text_le}
use liz.Protocol.Ids.{Timestamp, MemoryFactId}
use liz.Protocol.Memory.{MemoryFactKind}
use liz.Protocol.Thread.{Thread, ThreadStatus}
use liz.Protocol.Surface.{
  CarryingItem, CarryingSurface, KnowledgeItem, KnowledgeSurface, KnowledgeCorrection,
}
use liz.Storage.{GlobalMemorySnapshot, StoredMemoryFact}
use liz.Runtime.Error.{RuntimeError, not_found}
use liz.Runtime.Exec.{Exec, pure, raise, ok_or, ◌>>=◌, ◌>>◌}
use liz.Runtime.Ids.{now_timestamp}
use liz.Runtime.Stores
use liz.Runtime.Stores.{read_global_memory, write_global_memory}

abbrev pub is_some : {A : Type 0} → Option A → Bool
is_some none = false
is_some (some a) = true

unfoldable pub memory_fact_kind_label : MemoryFactKind → String
memory_fact_kind_label MemoryFactKind.identity = "identity"
memory_fact_kind_label MemoryFactKind.active_state = "active_state"
memory_fact_kind_label MemoryFactKind.commitment = "commitment"
memory_fact_kind_label MemoryFactKind.decision = "decision"
memory_fact_kind_label MemoryFactKind.topic = "topic"
memory_fact_kind_label MemoryFactKind.procedure_candidate = "procedure"
memory_fact_kind_label MemoryFactKind.keyword = "keyword"

unfoldable pub knowledge_item : StoredMemoryFact → KnowledgeItem
unfolding memory_fact_kind_label
knowledge_item fact = record {
  fact_id = fact.id;
  kind = memory_fact_kind_label fact.kind;
  subject = fact.subject;
  summary = fact.value;
  stale = is_some fact.invalidated_at || is_some fact.invalidated_by;
  updated_at = fact.updated_at;
  citations = fact.citations;
}

-- `truncate`, with a limit or none.
abbrev pub truncate : {A : Type 0} → Option ℕ → List A → List A
truncate none xs = xs
truncate (some n) xs = take n xs

-- What is not stale before what is, and then the latest first.
unfoldable pub knowledge_le : KnowledgeItem → KnowledgeItem → Bool
knowledge_le left right =
    if left.stale
    then right.stale && text_le right.updated_at left.updated_at
    else right.stale || text_le right.updated_at left.updated_at

unfoldable pub knowledge_of : Option ℕ → GlobalMemorySnapshot → KnowledgeSurface
unfolding knowledge_item knowledge_le sort_by
knowledge_of limit snapshot = record {
  items = truncate limit (sort_by knowledge_le (map knowledge_item snapshot.facts));
}

unfoldable pub list_knowledge_surface : Option ℕ → Exec KnowledgeSurface
unfolding ◌>>=◌ knowledge_of
list_knowledge_surface limit = do snapshot ← read_global_memory; pure (knowledge_of limit snapshot)

abbrev pub knowledge_fact_not_found : RuntimeError
knowledge_fact_not_found = not_found "knowledge_fact_not_found" "knowledge fact does not exist"

unfoldable pub find_fact : MemoryFactId → List StoredMemoryFact → Option StoredMemoryFact
find_fact id [] = none
find_fact id (fact ∷ facts) =
    let later = find_fact id facts in if fact.id == id then some fact else later

unfoldable pub corrected : String → Timestamp → StoredMemoryFact → StoredMemoryFact
corrected value now fact = record fact { value = value; updated_at = now }

-- The facts after the first one with the id was corrected.
unfoldable pub correct_first :
    MemoryFactId → String → Timestamp → List StoredMemoryFact → List StoredMemoryFact
unfolding corrected
correct_first id value now [] = []
correct_first id value now (fact ∷ facts) =
    let later = correct_first id value now facts in
    if fact.id == id then corrected value now fact ∷ facts else fact ∷ later

unfoldable pub correct_knowledge_surface : KnowledgeCorrection → Exec KnowledgeItem
unfolding ◌>>=◌ find_fact correct_first knowledge_item
correct_knowledge_surface correction = do
  snapshot ← read_global_memory
  now ← now_timestamp
  fact ← ok_or (find_fact correction.fact_id snapshot.facts) knowledge_fact_not_found
  write_global_memory (record snapshot {
    facts = correct_first correction.fact_id correction.corrected_value now snapshot.facts;
  })
  pure (knowledge_item (corrected correction.corrected_value now fact))

abbrev pub first : List String → Option String
first [] = none
first (s ∷ rest) = some s

unfoldable pub carrying_item : Thread → CarryingItem
carrying_item thread = record {
  thread_id = thread.id;
  title = thread.title;
  status = thread.status;
  summary = thread.active_summary;
  pending_commitments = thread.pending_commitments;
  suggested_next_step = or_else (first thread.pending_commitments) thread.active_goal;
  updated_at = thread.updated_at;
}

abbrev pub is_done : ThreadStatus → Bool
is_done ThreadStatus.completed = true
is_done ThreadStatus.archived = true
is_done _ = false

abbrev pub newest_first : Thread → Thread → Bool
newest_first left right = text_le right.updated_at left.updated_at

-- The loop over the threads, which puts each item on one of the two lists.
unfoldable pub carrying_of : Option ℕ → List Thread → CarryingSurface
unfolding carrying_item sort_by retain
carrying_of limit threads =
    let items = map carrying_item (truncate limit (sort_by newest_first threads)) in
    record {
      active = retain (λ (item : CarryingItem). not (is_done item.status)) items;
      completed = retain (λ (item : CarryingItem). is_done item.status) items;
    }

unfoldable pub read_carrying_surface : Option ℕ → Exec CarryingSurface
unfolding ◌>>=◌ carrying_of
read_carrying_surface limit = do threads ← Stores.list_threads; pure (carrying_of limit threads)
