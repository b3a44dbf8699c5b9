-- ===== src/Runtime/Memory/Wakeup.antt =====
-- Which facts the wakeup of a thread shows, and in which order.
use liz.Prelude.{
  ◌≤◌, none, [], ◌∷◌, ◌++◌, ◌==◌, ◌&&◌, ◌||◌, Bool, List, any, drop, take-drop, any-sort_by,
  IsOrdered, IsSorted-IsOrdered, min, ◌≡◌, refl, true, false, map, take, arith, ap, ◌∙◌, All,
  retain, length, length-take, sort_by, length-sort_by, All-sort_by, sort_by-IsSorted, All-take,
  All-kept,
}
use liz.Text.{text_le, format}
use liz.Text.Order.{text_le_total, text_le_trans}
use liz.Protocol.Thread.{Thread}
use liz.Storage.{StoredMemoryFact, GlobalMemorySnapshot}
use liz.Runtime.Memory.{is_none}
use liz.Runtime.Memory.Recall.{
  wakeup_fact_score, has_no_threads, RecentConversationWakeupView, ranks_before, is_relevant,
  ranked_wakeup_facts, build_memory_wakeup,
}

ranks_before_total :
    (thread : Thread) (x y : StoredMemoryFact)
    → ranks_before thread x y ≡ false
    → ranks_before thread y x ≡ true
ranks_before_total thread x y h = ground (arith, text_le_total y.updated_at x.updated_at)

ranks_before_trans :
    (thread : Thread) (x y z : StoredMemoryFact)
    → ranks_before thread x y ≡ true
    → ranks_before thread y z ≡ true
    → ranks_before thread x z ≡ true
ranks_before_trans thread x y z h k =
    ground (arith, text_le_trans z.updated_at y.updated_at x.updated_at)

-- A fact that the wakeup of a thread may show: it is not invalidated and not superseded, and it is
-- related to no thread or to this one.
abbrev pub Concerns : Thread → StoredMemoryFact → Type 0
Concerns thread fact =
    (fact.invalidated_at ≡ none)
    × (fact.invalidated_by ≡ none)
    × (any (λ id. id == thread.id) fact.related_thread_ids ≡ false → fact.related_thread_ids ≡ [])

-- The first scores at least as much, and of two that score the same it is not the older one.
abbrev pub Outranks : Thread → StoredMemoryFact → StoredMemoryFact → Type 0
Outranks thread x y =
    (wakeup_fact_score y thread ≤ wakeup_fact_score x thread)
    × (wakeup_fact_score y thread ≡ wakeup_fact_score x thread
        → text_le y.updated_at x.updated_at ≡ true)

is_relevant-Concerns :
    (thread : Thread) (fact : StoredMemoryFact)
    → is_relevant thread fact ≡ true
    → Concerns thread fact
is_relevant-Concerns thread fact h = (ground arith, ground arith, λ a. ground arith)

ranks_before-Outranks :
    (thread : Thread) (x y : StoredMemoryFact)
    → ranks_before thread x y ≡ true
    → Outranks thread x y
ranks_before-Outranks thread x y h = (ground arith, λ e. ground arith)

All-Concerns :
    (thread : Thread) (facts : List StoredMemoryFact)
    → All (λ f. is_relevant thread f ≡ true) facts
    → All (Concerns thread) facts
All-Concerns thread [] h = tt
All-Concerns thread (fact ∷ facts) (p, h) =
    (is_relevant-Concerns thread fact p, All-Concerns thread facts h)

-- The wakeup of a thread shows, each with its subject and its value and by its id, at most six facts of
-- the memory. None of them is invalidated or superseded, and each is related to this thread or to no
-- thread at all. Those that were left out and are neither invalidated nor superseded nor of other
-- threads alone come behind those that are shown: all together stand by their score, the highest
-- first, and the latest first among equals; and some are left out only when six are shown.
pub build_memory_wakeup_lem :
    (snapshot : GlobalMemorySnapshot) (thread : Thread) (recent : RecentConversationWakeupView)
    → let wakeup = build_memory_wakeup snapshot thread recent in
      let may_show : StoredMemoryFact → Bool = λ f.
        is_none f.invalidated_at
        && is_none f.invalidated_by
        && (has_no_threads f.related_thread_ids
            || any (λ id. id == thread.id) f.related_thread_ids) in
      (shown : List StoredMemoryFact) × (left_out : List StoredMemoryFact) × (wakeup.relevant_facts
        ≡ map (λ (f : StoredMemoryFact). format (f.subject ∷ ": " ∷ f.value ∷ [])) shown)
      × (wakeup.citation_fact_ids ≡ map (λ (f : StoredMemoryFact). f.id) shown)
      × All (Concerns thread) shown
      × IsOrdered (Outranks thread) (shown ++ left_out)
      × ((p : StoredMemoryFact → Bool)
          → any p (shown ++ left_out) ≡ any p (retain may_show snapshot.facts))
      × (length shown ≡ min 6 (length (retain may_show snapshot.facts)))
      × (length (shown ++ left_out) ≡ length (retain may_show snapshot.facts))
unfolding build_memory_wakeup ranked_wakeup_facts
build_memory_wakeup_lem snapshot thread recent =
    let le = ranks_before thread in
    let facts = retain (is_relevant thread) snapshot.facts in
    let sorted = sort_by le facts in
    let whole = take-drop 6 sorted in
    (
      take 6 sorted,
      drop 6 sorted,
      refl,
      refl,
      All-Concerns thread (take 6 sorted) (
          All-take _ 6 sorted (
            All-sort_by (λ f. is_relevant thread f ≡ true) le facts
              (All-kept (is_relevant thread) snapshot.facts))),
      rw whole (
          IsSorted-IsOrdered (Outranks thread) le (ranks_before-Outranks thread) sorted
            (sort_by-IsSorted le (ranks_before_total thread) (ranks_before_trans thread) facts)),
      λ p. rw whole (any-sort_by le p facts),
      length-take 6 sorted ∙ ap (min 6) (length-sort_by le facts),
      rw whole (length-sort_by le facts),
    )
