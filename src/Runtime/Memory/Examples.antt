-- ===== src/Runtime/Memory/Examples.antt =====
-- Runs of the memory compilation.
use Prim.Native.Char.{Char}
use liz.Prelude.{
  List, IsOrdered, any, ◌++◌, ◌==◌, ◌&&◌, ◌||◌, min, retain, All, ℕ, String, ◌≡◌, ◌≢◌, refl, Bool,
  true, false, Option, none, some, [], ◌∷◌, arith, length, is_some_and, map,
}
use liz.Protocol.Thread.{Thread, ThreadStatus}
use liz.Protocol.Memory.{MemoryFactKind}
use liz.Storage.{GlobalMemorySnapshot, empty_snapshot, StoredMemoryFact, no_files}
use liz.Runtime.Error.{ok, is_ok}
use liz.Runtime.State.{RuntimeCoordinator, idle}
use liz.Runtime.Stores.{memory_of}
use liz.Runtime.Ids.{next_memory_fact_id}
use liz.Runtime.Memory.{FactSpec, Ledger, fact_of, find_live, says_same, upsert_fact, upsert_facts}
use liz.Runtime.Memory.Facts.{HasOneLive, live_count, ledger_of, upsert_fact_lem}
use liz.Runtime.Memory.Compile.{MemoryCompilationInput, MemoryCompilationDelta}
use liz.Runtime.Memory.Apply.{apply_compilation_delta}
use liz.Runtime.Memory.OneLive.{Keeps}
use liz.Text.{format}
use liz.Runtime.Memory.{is_none}
use liz.Runtime.Memory.Recall.{has_no_threads, RecentConversationWakeupView, build_memory_wakeup}
use liz.Runtime.Memory.Wakeup.{Concerns, Outranks, build_memory_wakeup_lem}
use liz.Runtime.Memory.History.{apply_compilation_delta_lem}

abbrev calm : ℕ → Bool
calm n = false

abbrev ticks : ℕ → ℕ
ticks n = n

abbrev state : RuntimeCoordinator
state = idle ticks (record { paths = no_files; faulty = calm; calls = 0 })

abbrev goal : String → FactSpec
goal value = record {
  kind = MemoryFactKind.decision;
  subject = "thread:t:current_goal";
  value = value;
  keywords = [];
  related_thread_ids = "t" ∷ [];
  citations = [];
  updated_at = "now";
}

abbrev one_goal : Ledger
one_goal = record {
  facts = fact_of (goal "ship") "f1" ∷ [];
  updated_fact_ids = [];
  invalidated_fact_ids = [];
}

one_goal-HasOneLive : HasOneLive one_goal.facts
unfolding live_count
one_goal-HasOneLive j = ground arith

upsert_fact_lem_example :
    let (result, after) = upsert_fact (goal "rest") one_goal state in
    let new = ledger_of one_goal result in
    (result ≡ ok new)
    × (after.stores ≡ state.stores)
    × HasOneLive new.facts
    × (is_some_and (says_same (goal "rest")) (find_live "thread:t:current_goal" new.facts) ≡ true)
    × ((fact : StoredMemoryFact)
        → find_live "thread:t:current_goal" new.facts ≡ some fact
        → (fact.value ≡ "rest") × (fact.kind ≡ MemoryFactKind.decision))
    × ((j : String)
        → j ≢ "thread:t:current_goal"
        → find_live j new.facts ≡ find_live j one_goal.facts)
    × ((fact : StoredMemoryFact)
        → find_live "thread:t:current_goal" one_goal.facts ≡ some fact
        → says_same (goal "rest") fact ≡ true
        → length new.facts ≡ length one_goal.facts)
upsert_fact_lem_example = upsert_fact_lem (goal "rest") one_goal state one_goal-HasOneLive

abbrev said : StoredMemoryFact → String × Option String
said f = (f.value, f.invalidated_at)

-- A second goal takes the place of the first, which stays on the list.
goal-replaced :
    map said
      (ledger_of one_goal (upsert_facts (goal "rest" ∷ goal "rest" ∷ []) one_goal state).0).facts
    ≡ ("ship", some "now") ∷ ("rest", none) ∷ []
unfolding upsert_facts next_memory_fact_id
goal-replaced = refl

abbrev work : Thread
work = record {
  id = "t";
  title = "Release";
  status = ThreadStatus.active;
  created_at = "0";
  updated_at = "0";
  active_goal = some "ship";
  active_summary = some "tests pass";
  last_interruption = none;
  workspace_ref = none;
  workspace_mount_id = none;
  pending_commitments = "call back" ∷ [];
  latest_turn_id = none;
  latest_checkpoint_id = none;
  parent_thread_id = none;
}

abbrev input : MemoryCompilationInput
input = record { thread = work; recent_entries = []; citations = []; existing_facts = [] }

abbrev delta : MemoryCompilationDelta
delta = record {
  identity_summary_update = none;
  active_state_summary = some "tests pass";
  recent_topics = "release" ∷ [];
  recent_keywords = "release" ∷ [];
  commitments = "call back" ∷ [];
  candidate_procedures = [];
  durable_facts = [];
  invalidation_candidates = [];
}

abbrev no_space : Char → Bool
no_space c = true

apply_compilation_delta_lem_example :
    let (result, after) = apply_compilation_delta no_space input delta state in
    let old = memory_of state.stores.paths in
    let new = memory_of after.stores.paths in
    Keeps old.facts new.facts
    × (HasOneLive old.facts → HasOneLive new.facts)
    × (new.relationships ≡ old.relationships)
    × (is_ok result ≡ false → after.stores.paths ≡ state.stores.paths)
apply_compilation_delta_lem_example = apply_compilation_delta_lem no_space input delta state

abbrev quiet : RecentConversationWakeupView
quiet = record { recent_summaries = []; active_topics = []; recent_keywords = []; citations = [] }

abbrev remembered : GlobalMemorySnapshot
remembered = record empty_snapshot { facts = one_goal.facts }

build_memory_wakeup_lem_example :
    let wakeup = build_memory_wakeup remembered work quiet in
    let may_show : StoredMemoryFact → Bool = λ f.
      is_none f.invalidated_at
      && is_none f.invalidated_by
      && (has_no_threads f.related_thread_ids || any (λ id. id == "t") f.related_thread_ids) in
    (shown : List StoredMemoryFact) × (left_out : List StoredMemoryFact) × (wakeup.relevant_facts
      ≡ map (λ (f : StoredMemoryFact). format (f.subject ∷ ": " ∷ f.value ∷ [])) shown)
    × (wakeup.citation_fact_ids ≡ map (λ (f : StoredMemoryFact). f.id) shown)
    × All (Concerns work) shown
    × IsOrdered (Outranks work) (shown ++ left_out)
    × ((p : StoredMemoryFact → Bool)
        → any p (shown ++ left_out) ≡ any p (retain may_show remembered.facts))
    × (length shown ≡ min 6 (length (retain may_show remembered.facts)))
    × (length (shown ++ left_out) ≡ length (retain may_show remembered.facts))
build_memory_wakeup_lem_example = build_memory_wakeup_lem remembered work quiet
