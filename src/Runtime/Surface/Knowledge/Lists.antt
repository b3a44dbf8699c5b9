-- ===== src/Runtime/Surface/Knowledge/Lists.antt =====
-- What the lists of knowledge and of work hold, and in which order.
use liz.Prelude.{
  IsOrdered, IsSorted-IsOrdered, take, ◌||◌, ℕ, ◌+◌, min, String, ◌≡◌, ◌≢◌, refl, Bool, true, false,
  not, Option, none, some, List, [], ◌∷◌, map, arith, ap, eq_iff, ◌∙◌, any, All, retain, length,
  length-take, length-map, All-map, length-halves, sort_by, length-sort_by, any-sort_by, IsSorted,
  sort_by-IsSorted, IsSorted-take, IsSorted-retain, All-kept,
}
use liz.Text.{text_le}
use liz.Text.Order.{text_le_total, text_le_trans}
use liz.Protocol.Ids.{MemoryFactId}
use liz.Protocol.Thread.{Thread}
use liz.Protocol.Surface.{CarryingItem, KnowledgeItem, KnowledgeCorrection}
use liz.Storage.{StoredMemoryFact, GlobalMemorySnapshot}
use liz.Runtime.Error.{ok, err}
use liz.Runtime.State.{RuntimeCoordinator}
use liz.Runtime.Ids.{now_timestamp, timestamp}
use liz.Runtime.Stores.{read_global_memory, write_global_memory, memory_of}
use liz.Runtime.Surface.Knowledge.{
  memory_fact_kind_label, is_some, knowledge_item, knowledge_le, knowledge_of, truncate, find_fact,
  corrected, correct_first, correct_knowledge_surface, knowledge_fact_not_found, carrying_item,
  newest_first, is_done, carrying_of,
}

knowledge_le_total : (x y : KnowledgeItem) → knowledge_le x y ≡ false → knowledge_le y x ≡ true
unfolding knowledge_le
knowledge_le_total x y h = ground (arith, text_le_total y.updated_at x.updated_at)

knowledge_le_trans :
    (x y z : KnowledgeItem)
    → knowledge_le x y ≡ true
    → knowledge_le y z ≡ true
    → knowledge_le x z ≡ true
unfolding knowledge_le
knowledge_le_trans x y z h k = ground (arith, text_le_trans z.updated_at y.updated_at x.updated_at)

-- The length under a limit.
abbrev pub limited : Option ℕ → ℕ → ℕ
limited none n = n
limited (some limit) n = min limit n

module _ {A : Type 0} where
  length-truncate :
      (limit : Option ℕ) (xs : List A) → length (truncate limit xs) ≡ limited limit (length xs)
  length-truncate none xs = refl
  length-truncate (some n) xs = length-take n xs

  IsSorted-truncate :
      (le : A → A → Bool) (limit : Option ℕ) (xs : List A)
      → IsSorted le xs
      → IsSorted le (truncate limit xs)
  IsSorted-truncate le none xs h = h
  IsSorted-truncate le (some n) xs h = IsSorted-take le n xs h

-- What is not stale stands before what is, and of two that are alike in that the latest stands first.
abbrev pub StandsBefore : KnowledgeItem → KnowledgeItem → Type 0
StandsBefore x y =
    (x.stale ≡ true → y.stale ≡ true)
    × (x.stale ≡ y.stale → text_le y.updated_at x.updated_at ≡ true)

knowledge_le-StandsBefore : (x y : KnowledgeItem) → knowledge_le x y ≡ true → StandsBefore x y
unfolding knowledge_le
knowledge_le-StandsBefore x y h = ground arith

-- The list of knowledge has what is not stale before what is and each of them latest first. Without a
-- limit it has as many items as there are facts, and an item of a kind just when a fact gives one,
-- where a fact gives its id, the label of its kind, its subject, its value, its time and its
-- citations, and is stale just when it was invalidated or superseded. A limit keeps the first items of
-- that list.
pub knowledge_of_lem :
    (limit : Option ℕ) (snapshot : GlobalMemorySnapshot)
    → let items = (knowledge_of limit snapshot).items in
      let item_of : StoredMemoryFact → KnowledgeItem = λ f. record {
        fact_id = f.id;
        kind = memory_fact_kind_label f.kind;
        subject = f.subject;
        summary = f.value;
        stale = is_some f.invalidated_at || is_some f.invalidated_by;
        updated_at = f.updated_at;
        citations = f.citations;
      } in
      IsOrdered StandsBefore items
      × ((n : ℕ) → limit ≡ some n → items ≡ take n (knowledge_of none snapshot).items)
      × (limit ≡ none
          → (length items ≡ length snapshot.facts)
            × ((p : KnowledgeItem → Bool) → any p items ≡ any p (map item_of snapshot.facts)))
unfolding knowledge_of knowledge_item
knowledge_of_lem limit snapshot =
    let items = map knowledge_item snapshot.facts in
    let sorted = sort_by knowledge_le items in
    (
      IsSorted-IsOrdered StandsBefore knowledge_le knowledge_le-StandsBefore _ (
          IsSorted-truncate knowledge_le limit sorted
            (sort_by-IsSorted knowledge_le knowledge_le_total knowledge_le_trans items)),
      λ n e. rw e refl,
      λ e. (
        rw e (length-sort_by knowledge_le items ∙ length-map knowledge_item snapshot.facts),
        λ p. rw e (any-sort_by knowledge_le p items),
      ),
    )

find_fact-correct_first :
    (id : MemoryFactId) (value now : String) (j : MemoryFactId) (facts : List StoredMemoryFact)
    → (j ≢ id → find_fact j (correct_first id value now facts) ≡ find_fact j facts)
      × ((fact : StoredMemoryFact)
          → find_fact id facts ≡ some fact
          → find_fact id (correct_first id value now facts) ≡ some (corrected value now fact))
unfolding find_fact correct_first corrected
find_fact-correct_first id value now j [] = ground arith
find_fact-correct_first id value now j (fact ∷ facts) =
    grind (arith, find_fact-correct_first id value now j facts, eq_iff fact.id id, eq_iff fact.id j)

length-correct_first :
    (id : MemoryFactId) (value now : String) (facts : List StoredMemoryFact)
    → length (correct_first id value now facts) ≡ length facts
unfolding correct_first
length-correct_first id value now [] = refl
length-correct_first id value now (fact ∷ facts) =
    ground (arith, length-correct_first id value now facts)

-- With a file system that answers, correcting a fact that is not on file is refused and changes no
-- file. Else the first fact with the id gets the value and the time of the correction and keeps
-- what it had besides, also that it is stale; every other id finds the fact it found, the facts are
-- as many, nothing else of the memory on file has changed, and the answer is the item of the
-- corrected fact.
pub correct_knowledge_surface_lem :
    (correction : KnowledgeCorrection) (s : RuntimeCoordinator)
    → ((n : ℕ) → s.stores.faulty n ≡ false)
    → let (result, after) = correct_knowledge_surface correction s in
      let old = memory_of s.stores.paths in
      let new = memory_of after.stores.paths in
      let now = timestamp (s.ids.clock s.ids.readings) in
      (find_fact correction.fact_id old.facts ≡ none
        → (result ≡ err knowledge_fact_not_found) × (after.stores.paths ≡ s.stores.paths))
      × ((fact : StoredMemoryFact)
          → find_fact correction.fact_id old.facts ≡ some fact
          → let better : StoredMemoryFact = record fact {
            value = correction.corrected_value;
            updated_at = now;
          } in
            let answer : KnowledgeItem = record {
              fact_id = fact.id;
              kind = memory_fact_kind_label fact.kind;
              subject = fact.subject;
              summary = correction.corrected_value;
              stale = is_some fact.invalidated_at || is_some fact.invalidated_by;
              updated_at = now;
              citations = fact.citations;
            } in
            (result ≡ ok answer)
            × (find_fact correction.fact_id new.facts ≡ some better)
            × ((j : MemoryFactId)
                → j ≢ correction.fact_id
                → find_fact j new.facts ≡ find_fact j old.facts)
            × (length new.facts ≡ length old.facts)
            × (new ≡ record old { facts = new.facts }))
unfolding correct_knowledge_surface read_global_memory write_global_memory memory_of now_timestamp
    corrected knowledge_item
correct_knowledge_surface_lem correction s calm =
    grind (arith, find_fact-correct_first, length-correct_first)

abbrev pub latest_first : CarryingItem → CarryingItem → Bool
latest_first left right = text_le right.updated_at left.updated_at

map-IsSorted :
    (threads : List Thread)
    → IsSorted newest_first threads
    → IsSorted latest_first (map carrying_item threads)
unfolding carrying_item
map-IsSorted [] h = tt
map-IsSorted (t ∷ threads) (k, h) = (
  All-map (λ item. latest_first (carrying_item t) item ≡ true) carrying_item threads k,
  map-IsSorted threads h,
)

newest_first_total : (x y : Thread) → newest_first x y ≡ false → newest_first y x ≡ true
newest_first_total x y = text_le_total y.updated_at x.updated_at

newest_first_trans :
    (x y z : Thread) → newest_first x y ≡ true → newest_first y z ≡ true → newest_first x z ≡ true
newest_first_trans x y z h k = text_le_trans z.updated_at y.updated_at x.updated_at k h

All-undone :
    (items : List CarryingItem)
    → All (λ item. is_done item.status ≡ false) (retain (λ item. not (is_done item.status)) items)
unfolding retain
All-undone [] = tt
All-undone (x ∷ items) = ground (arith, All-undone items)

-- The work that liz carries is listed latest first, on one list what is completed or archived and on
-- the other what is not; together the lists have as many items as there are threads, up to the
-- limit.
pub carrying_of_lem :
    (limit : Option ℕ) (threads : List Thread)
    → let surface = carrying_of limit threads in
      All (λ item. is_done item.status ≡ false) surface.active
      × All (λ item. is_done item.status ≡ true) surface.completed
      × IsSorted latest_first surface.active
      × IsSorted latest_first surface.completed
      × (length surface.active + length surface.completed ≡ limited limit (length threads))
unfolding carrying_of
carrying_of_lem limit threads =
    let sorted = sort_by newest_first threads in
    let kept = truncate limit sorted in
    let items = map carrying_item kept in
    let done : CarryingItem → Bool = λ item. is_done item.status in
    let order = map-IsSorted kept (
      IsSorted-truncate newest_first limit sorted
        (sort_by-IsSorted newest_first newest_first_total newest_first_trans threads)) in
    (
      All-undone items,
      All-kept done items,
      IsSorted-retain latest_first (λ item. not (done item)) items order,
      IsSorted-retain latest_first done items order,
      length-halves done items
          ∙ length-map carrying_item kept
          ∙ length-truncate limit sorted
          ∙ ap (limited limit) (length-sort_by newest_first threads),
    )
