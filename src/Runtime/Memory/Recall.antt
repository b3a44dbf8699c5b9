-- ===== src/Runtime/Memory/Recall.antt =====
-- What runtime/memory.rs reads out of the memory: the wakeup of a thread, the topics, a session, one
-- piece of evidence and the reflection.
use Prim.Native.Char.{Char}
use liz.Prelude.{
  ℕ, ◌+◌, String, Bool, true, false, not, ◌&&◌, ◌||◌, Option, none, some, List, [], ◌∷◌, map, any,
  retain, take, sort_by, if◌then◌else◌, or_else, eqb, ltb,
}
use liz.Text.{trim, is_empty, contains, to_ascii_lowercase, join, format, text_le}
use liz.Protocol.Ids.{ThreadId, MemoryFactId}
use liz.Protocol.Thread.{Thread}
use liz.Protocol.Memory.{MemoryFactKind, MemoryCitationRef}
use liz.Storage.{GlobalMemorySnapshot, StoredMemoryFact, StoredTopicRecord, TurnLogEntry}
use liz.Runtime.Exec.{Exec, pure, ◌>>=◌}
use liz.Runtime.Stores.{read_turn_log, read_global_memory}
use liz.Runtime.TurnManager.{find_thread}
use liz.Runtime.Memory.{same_kind, is_none}
use liz.Runtime.Memory.Tokens.{among, derive_topics_from_text, derive_keywords_from_text}
use liz.Runtime.Memory.Compile.{recent_entries, citations_from_entries, summaries}

pub record RecentConversationWakeupView : Type 0 where
  pub recent_summaries : List String
  pub active_topics : List String
  pub recent_keywords : List String
  pub citations : List MemoryCitationRef

pub record MemoryWakeup : Type 0 where
  pub identity_summary : Option String
  pub active_state : Option String
  pub relevant_facts : List String
  pub open_commitments : List String
  pub recent_topics : List String
  pub recent_keywords : List String
  pub citation_fact_ids : List MemoryFactId
  pub citations : List MemoryCitationRef

abbrev pub kind_score : MemoryFactKind → ℕ
kind_score MemoryFactKind.identity = 40
kind_score MemoryFactKind.commitment = 35
kind_score MemoryFactKind.active_state = 30
kind_score MemoryFactKind.decision = 25
kind_score MemoryFactKind.procedure_candidate = 15
kind_score MemoryFactKind.topic = 10
kind_score MemoryFactKind.keyword = 10

unfoldable pub wakeup_fact_score : StoredMemoryFact → Thread → ℕ
unfolding any contains to_ascii_lowercase
wakeup_fact_score fact thread =
    let title = to_ascii_lowercase thread.title in
    (if among fact.related_thread_ids thread.id then 50 else 0)
    + kind_score fact.kind
    + (if any (λ keyword. contains title (to_ascii_lowercase keyword)) fact.keywords then 10 else 0)

-- The order by score, the highest first, and among equals by time, the latest first.
abbrev pub ranks_before : Thread → StoredMemoryFact → StoredMemoryFact → Bool
ranks_before thread left right =
    let l = wakeup_fact_score left thread in
    let r = wakeup_fact_score right thread in
    ltb r l || (eqb r l && text_le right.updated_at left.updated_at)

abbrev pub has_no_threads : List ThreadId → Bool
has_no_threads [] = true
has_no_threads (id ∷ ids) = false

abbrev pub is_relevant : Thread → StoredMemoryFact → Bool
is_relevant thread fact =
    is_none fact.invalidated_at
    && is_none fact.invalidated_by
    && (has_no_threads fact.related_thread_ids || among fact.related_thread_ids thread.id)

unfoldable pub ranked_wakeup_facts : GlobalMemorySnapshot → Thread → List StoredMemoryFact
unfolding sort_by retain any
ranked_wakeup_facts snapshot thread =
    sort_by (ranks_before thread) (retain (is_relevant thread) snapshot.facts)

abbrev pub list_or : List String → List String → List String
list_or [] fallback = fallback
list_or (s ∷ rest) fallback = s ∷ rest

abbrev pub fact_line : StoredMemoryFact → String
fact_line fact = format (fact.subject ∷ ": " ∷ fact.value ∷ [])

unfoldable pub build_memory_wakeup :
    GlobalMemorySnapshot → Thread → RecentConversationWakeupView → MemoryWakeup
unfolding ranked_wakeup_facts
build_memory_wakeup snapshot thread recent =
    let shown = take 6 (ranked_wakeup_facts snapshot thread) in
    record {
      identity_summary = snapshot.identity_summary;
      active_state = or_else snapshot.active_state_summary thread.active_summary;
      relevant_facts = map fact_line shown;
      open_commitments = thread.pending_commitments;
      recent_topics = list_or snapshot.recent_topics recent.active_topics;
      recent_keywords = list_or snapshot.recent_keywords recent.recent_keywords;
      citation_fact_ids = map (λ (f : StoredMemoryFact). f.id) shown;
      citations = recent.citations;
    }

module _ (is_alphanumeric : Char → Bool) where
  unfoldable pub build_recent_conversation :
      ThreadId → List TurnLogEntry → RecentConversationWakeupView
  unfolding recent_entries citations_from_entries retain trim derive_topics_from_text
      derive_keywords_from_text
  build_recent_conversation thread_id entries =
      let recent = recent_entries entries in
      let texts = retain (λ s. not (is_empty (trim s))) (summaries recent) in
      record {
        recent_summaries = texts;
        active_topics = derive_topics_from_text is_alphanumeric texts 6;
        recent_keywords = derive_keywords_from_text is_alphanumeric texts 8;
        citations = citations_from_entries thread_id recent;
      }

  unfoldable pub read_wakeup : ThreadId → Exec (MemoryWakeup × RecentConversationWakeupView)
  unfolding ◌>>=◌ build_memory_wakeup build_recent_conversation
  read_wakeup thread_id = do
    thread ← find_thread thread_id
    snapshot ← read_global_memory
    entries ← read_turn_log thread_id
    let recent = build_recent_conversation thread_id entries
    pure (build_memory_wakeup snapshot thread recent, recent)

abbrev pub parts_or : String → String → String → List String → String
parts_or nothing prefix separator [] = nothing
parts_or nothing prefix separator (s ∷ rest) = format (prefix ∷ join separator (s ∷ rest) ∷ [])

abbrev pub is_open_procedure : Thread → StoredMemoryFact → Bool
is_open_procedure thread fact =
    same_kind fact.kind MemoryFactKind.procedure_candidate
    && is_none fact.invalidated_at
    && among fact.related_thread_ids thread.id

abbrev pub reflection : Thread → List String → List String → List String → Option String
reflection thread [] [] [] = none
reflection thread topics procedures commitments = some (
    format (
      "Reflection for "
      ∷ thread.title
      ∷ ": "
      ∷ parts_or "no dominant topic cluster" "active topics: " ", " topics
      ∷ "; "
      ∷ parts_or "no reusable procedure surfaced yet" "procedure candidate: " " | " procedures
      ∷ "; "
      ∷ parts_or "no open commitments remain" "carry forward: " " | " commitments
      ∷ []))

unfoldable pub summarize_dreaming : ThreadId → Exec (Option String)
unfolding ◌>>=◌ retain any join
summarize_dreaming thread_id = do
  thread ← find_thread thread_id
  snapshot ← read_global_memory
  pure (
      reflection thread
        (map (λ (t : StoredTopicRecord). t.name)
          (take 3 (
            retain (λ (t : StoredTopicRecord). among t.related_thread_ids thread.id)
              snapshot.topic_index)))
        (map (λ (f : StoredMemoryFact). f.value)
          (take 2 (retain (is_open_procedure thread) snapshot.facts)))
        (take 2 thread.pending_commitments))
