-- ===== src/Runtime/Memory/Compile.antt =====
-- The compilation of memory in runtime/memory.rs: what it reads of a thread, the changes that are
-- derived from it or that a model proposes, and how they are applied to the global memory.
use liz.Prelude.{
  ◌-◌, String, Bool, true, false, not, ◌&&◌, ◌||◌, Option, none, some, List, [], ◌∷◌, ◌++◌, ◌==◌,
  map, any, retain, take, drop, length, sort_by, dedup, if◌then◌else◌, unwrap_or, leb, is_some_and,
}
use liz.Text.{trim, is_empty, contains, to_ascii_lowercase, join, format, text_le}
use liz.Protocol.Ids.{ThreadId, ArtifactId, MemoryFactId, Timestamp}
use liz.Protocol.Thread.{Thread, ThreadStatus}
use liz.Protocol.Memory.{MemoryFactKind, MemoryCitationRef, MemoryTopicStatus}
use liz.Storage.{StoredMemoryFact, StoredTopicRecord, TurnLogEntry}
use liz.Runtime.Exec.{Exec, pure, ◌>>=◌}
use liz.Runtime.Stores.{read_turn_log, read_global_memory}
use liz.Runtime.TurnManager.{find_thread}
use liz.Runtime.Memory.{same_kind, is_none}

pub record MemoryCompilationInput : Type 0 where
  pub thread : Thread
  pub recent_entries : List TurnLogEntry
  pub citations : List MemoryCitationRef
  pub existing_facts : List StoredMemoryFact

pub record MemoryDeltaFact : Type 0 where
  pub kind : Option MemoryFactKind
  pub subject : String
  pub value : String
  pub keywords : List String

-- MemoryCompilationDelta, and LlmMemoryCompilationDelta with the same fields.
pub record MemoryCompilationDelta : Type 0 where
  pub identity_summary_update : Option String
  pub active_state_summary : Option String
  pub recent_topics : List String
  pub recent_keywords : List String
  pub commitments : List String
  pub candidate_procedures : List String
  pub durable_facts : List MemoryDeltaFact
  pub invalidation_candidates : List String

-- The last entries with a summary, oldest first.
unfoldable pub recent_entries : List TurnLogEntry → List TurnLogEntry
unfolding retain trim
recent_entries entries =
    let kept = retain (λ (e : TurnLogEntry). not (is_empty (trim e.summary))) entries in
    drop (length kept - 8) kept

abbrev pub first_artifact : List ArtifactId → Option ArtifactId
first_artifact [] = none
first_artifact (id ∷ ids) = some id

unfoldable pub citations_from_entries : ThreadId → List TurnLogEntry → List MemoryCitationRef
citations_from_entries thread_id entries =
    map
      (λ (e : TurnLogEntry). record {
        thread_id = thread_id;
        turn_id = e.turn_id;
        artifact_id = first_artifact e.artifact_ids;
        note = e.summary;
      })
      (take 4 entries)

unfoldable pub build_compilation_input : ThreadId → Exec MemoryCompilationInput
unfolding ◌>>=◌ recent_entries citations_from_entries
build_compilation_input thread_id = do
  thread ← find_thread thread_id
  entries ← read_turn_log thread_id
  snapshot ← read_global_memory
  pure (record {
    thread = thread;
    recent_entries = recent_entries entries;
    citations = citations_from_entries thread_id (recent_entries entries);
    existing_facts = snapshot.facts;
  })

unfoldable pub derive_candidate_procedures : List TurnLogEntry → List String → List String
unfolding retain join
derive_candidate_procedures entries topics =
    let steps =
      map (λ (e : TurnLogEntry). e.summary)
        (retain (λ (e : TurnLogEntry). e.event == "tool_completed") entries) in
    let prefix : String = elim topics [
      | [] ↦ ""
      | topic ∷ rest ↦ format ("For " ∷ topic ∷ ", " ∷ [])
    ] in
    if leb 2 (length steps)
    then format (prefix ∷ "repeat the proven flow: " ∷ join " -> " steps ∷ []) ∷ []
    else []

abbrev pub identity_signals : List String
identity_signals =
    "my name is" ∷ "call me" ∷ "i am " ∷ "i'm " ∷ "i work on" ∷ "i prefer" ∷ "prefers" ∷ "likes"
    ∷ "wants to be called" ∷ []

abbrev pub has_identity_signal : String → Bool
has_identity_signal summary =
    any (λ needle. contains (to_ascii_lowercase summary) needle) identity_signals

-- The value of the first identity fact that is not invalidated.
unfoldable pub previous_identity : List StoredMemoryFact → Option String
previous_identity [] = none
previous_identity (fact ∷ facts) =
    let later = previous_identity facts in
    if same_kind fact.kind MemoryFactKind.identity && is_none fact.invalidated_at
    then some fact.value
    else later

unfoldable pub derive_identity_summary_update : MemoryCompilationInput → Option String
unfolding previous_identity retain trim any contains to_ascii_lowercase join
derive_identity_summary_update input = elim input.citations [
  | [] ↦ none
  | _ ∷ _ ↦
      elim (take 3 (
        retain has_identity_signal
          (map (λ (e : TurnLogEntry). trim e.summary) input.recent_entries))) [
            | [] ↦ none
            | line ∷ lines ↦
                let update = join " " (line ∷ lines) in
                if is_some_and (λ previous. previous == update)
                  (previous_identity input.existing_facts)
                then none
                else some update
          ]
]

abbrev pub to_list : Option String → List String
to_list none = []
to_list (some s) = s ∷ []

abbrev pub summaries : List TurnLogEntry → List String
summaries entries = map (λ (e : TurnLogEntry). e.summary) entries

-- BTreeSet: the members of two lists, in their order and without repetitions.
unfoldable pub merge_by : {A : Type 0} → (A → A → Bool) → (A → A → Bool) → List A → List A → List A
unfolding sort_by dedup
merge_by le same target values = dedup same (sort_by le (target ++ values))

abbrev pub merge_texts : List String → List String → List String
merge_texts = merge_by text_le (λ a b. a == b)

abbrev pub option_le : Option String → Option String → Bool
option_le none b = true
option_le (some a) none = false
option_le (some a) (some b) = text_le a b

abbrev pub option_eq : Option String → Option String → Bool
option_eq none none = true
option_eq (some a) (some b) = a == b
option_eq _ _ = false

-- The derived order of citations, field by field.
abbrev pub citation_le : MemoryCitationRef → MemoryCitationRef → Bool
citation_le a b =
    if not (a.thread_id == b.thread_id)
    then text_le a.thread_id b.thread_id
    else if not (option_eq a.turn_id b.turn_id)
    then option_le a.turn_id b.turn_id
    else if not (option_eq a.artifact_id b.artifact_id)
    then option_le a.artifact_id b.artifact_id
    else text_le a.note b.note

abbrev pub same_citation : MemoryCitationRef → MemoryCitationRef → Bool
same_citation a b =
    a.thread_id == b.thread_id
    && option_eq a.turn_id b.turn_id
    && option_eq a.artifact_id b.artifact_id
    && a.note == b.note

abbrev pub topic_status : ThreadStatus → MemoryTopicStatus
topic_status ThreadStatus.completed = MemoryTopicStatus.resolved
topic_status ThreadStatus.failed = MemoryTopicStatus.stale
topic_status ThreadStatus.archived = MemoryTopicStatus.stale
topic_status _ = MemoryTopicStatus.active

-- What a compilation says of each recent topic.
pub record TopicNews : Type 0 where
  pub thread : Thread
  pub artifact_ids : List ArtifactId
  pub keywords : List String
  pub fact_ids : List MemoryFactId
  pub citations : List MemoryCitationRef
  pub now : Timestamp

abbrev pub topic_summary : TopicNews → String → String
topic_summary news name =
    unwrap_or (format ("Recent topic around " ∷ name ∷ [])) news.thread.active_summary

abbrev pub is_topic : String → StoredTopicRecord → Bool
is_topic name topic = topic.name == name || any (λ a. a == name) topic.aliases

unfoldable pub renewed_topic : TopicNews → String → StoredTopicRecord → StoredTopicRecord
unfolding merge_by
renewed_topic news name topic = record topic {
  summary = topic_summary news name;
  status = topic_status news.thread.status;
  last_active_at = news.now;
  related_thread_ids = merge_texts topic.related_thread_ids (news.thread.id ∷ []);
  related_artifact_ids = merge_texts topic.related_artifact_ids news.artifact_ids;
  citation_fact_ids = merge_texts topic.citation_fact_ids news.fact_ids;
  recent_keywords = news.keywords;
  citations = merge_by citation_le same_citation topic.citations news.citations;
}

unfoldable pub new_topic : TopicNews → String → StoredTopicRecord
new_topic news name = record {
  name = name;
  aliases = [];
  summary = topic_summary news name;
  status = topic_status news.thread.status;
  last_active_at = news.now;
  related_thread_ids = news.thread.id ∷ [];
  related_artifact_ids = news.artifact_ids;
  citation_fact_ids = news.fact_ids;
  recent_keywords = news.keywords;
  citations = news.citations;
}

unfoldable pub put_topic : TopicNews → String → List StoredTopicRecord → List StoredTopicRecord
unfolding any renewed_topic new_topic
put_topic news name [] = new_topic news name ∷ []
put_topic news name (topic ∷ topics) =
    let later = put_topic news name topics in
    if is_topic name topic then renewed_topic news name topic ∷ topics else topic ∷ later

unfoldable pub sync_topic_index :
    TopicNews → List String → List StoredTopicRecord → List StoredTopicRecord
unfolding put_topic
sync_topic_index news [] topics = topics
sync_topic_index news (name ∷ names) topics =
    sync_topic_index news names (put_topic news name topics)
