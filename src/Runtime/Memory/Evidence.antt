-- ===== src/Runtime/Memory/Evidence.antt =====
-- The views of runtime/memory.rs on the topics, on one session and on one piece of evidence.
use liz.Prelude.{
  true, Bool, ℕ, take, retain, sort_by, eqb, String, ◌&&◌, Option, none, some, List, [], ◌∷◌, ◌==◌,
  map, if◌then◌else◌, unwrap_or, is_some_and,
}
use liz.Protocol.Ids.{ThreadId, TurnId, ArtifactId, MemoryFactId, Timestamp}
use liz.Protocol.Thread.{Thread, ThreadStatus}
use liz.Protocol.Artifact.{ArtifactRef}
use liz.Protocol.Memory.{MemoryFactKind, MemoryCitationRef, MemoryTopicStatus}
use liz.Storage.{StoredTopicRecord, StoredMemoryFact, StoredArtifact, TurnLogEntry}
use liz.Runtime.Error.{invalid_state}
use liz.Runtime.Exec.{Exec, pure, raise, ◌>>=◌}
use liz.Runtime.Stores.{read_turn_log, read_global_memory, get_artifact}
use liz.Runtime.TurnManager.{find_thread}
use liz.Runtime.Memory.{is_none}
use liz.Runtime.Memory.Tokens.{concat}
use liz.Runtime.Memory.Compile.{recent_entries, option_le}

pub record MemorySessionEntry : Type 0 where
  pub recorded_at : Timestamp
  pub event : String
  pub summary : String
  pub turn_id : Option TurnId
  pub artifact_ids : List ArtifactId

pub record MemorySessionView : Type 0 where
  pub thread_id : ThreadId
  pub title : String
  pub status : ThreadStatus
  pub active_summary : Option String
  pub pending_commitments : List String
  pub recent_entries : List MemorySessionEntry
  pub artifacts : List ArtifactRef

pub record MemoryEvidenceView : Type 0 where
  pub citation : MemoryCitationRef
  pub thread_title : Option String
  pub turn_summary : Option String
  pub fact_id : Option MemoryFactId
  pub fact_kind : Option MemoryFactKind
  pub fact_value : Option String
  pub artifact : Option ArtifactRef
  pub artifact_body : Option String

abbrev pub optional : {A B : Type 0} → (A → B) → Option A → Option B
optional f none = none
optional f (some a) = some (f a)

abbrev pub with_found : Option StoredArtifact → List ArtifactRef → List ArtifactRef
with_found none rest = rest
with_found (some artifact) rest = artifact.reference ∷ rest

unfoldable pub artifacts_for : List ArtifactId → Exec (List ArtifactRef)
unfolding ◌>>=◌
artifacts_for [] = pure []
artifacts_for (id ∷ ids) = do
  found ← get_artifact id
  rest ← artifacts_for ids
  pure (with_found found rest)

unfoldable pub artifacts_for_entries : List TurnLogEntry → Exec (List ArtifactRef)
unfolding artifacts_for
artifacts_for_entries entries =
    artifacts_for (concat (map (λ (e : TurnLogEntry). e.artifact_ids) entries))

abbrev pub session_entry : TurnLogEntry → MemorySessionEntry
session_entry entry = record {
  recorded_at = entry.recorded_at;
  event = entry.event;
  summary = entry.summary;
  turn_id = entry.turn_id;
  artifact_ids = entry.artifact_ids;
}

unfoldable pub open_session : ThreadId → Exec MemorySessionView
unfolding ◌>>=◌ artifacts_for_entries recent_entries
open_session thread_id = do
  thread ← find_thread thread_id
  entries ← read_turn_log thread_id
  artifacts ← artifacts_for_entries (recent_entries entries)
  pure (record {
    thread_id = thread.id;
    title = thread.title;
    status = thread.status;
    active_summary = thread.active_summary;
    pending_commitments = thread.pending_commitments;
    recent_entries = map session_entry (recent_entries entries);
    artifacts = artifacts;
  })

unfoldable pub turn_summary_in : List TurnLogEntry → TurnId → Option String
turn_summary_in [] needle = none
turn_summary_in (entry ∷ entries) needle =
    let later = turn_summary_in entries needle in
    if is_some_and (λ id. id == needle) entry.turn_id then some entry.summary else later

unfoldable pub fact_in : List StoredMemoryFact → MemoryFactId → Option StoredMemoryFact
fact_in [] needle = none
fact_in (fact ∷ facts) needle =
    let later = fact_in facts needle in if fact.id == needle then some fact else later

abbrev pub find_by : {A : Type 0} → (String → Option A) → Option String → Option A
find_by find none = none
find_by find (some needle) = find needle

unfoldable pub maybe_artifact : Option ArtifactId → Exec (Option StoredArtifact)
maybe_artifact none = pure none
maybe_artifact (some id) = get_artifact id

abbrev pub first_or : MemoryCitationRef → List MemoryCitationRef → MemoryCitationRef
first_or fallback [] = fallback
first_or fallback (citation ∷ rest) = citation

-- What the evidence was asked for by.
pub record EvidenceTarget : Type 0 where
  pub turn_id : Option TurnId
  pub artifact_id : Option ArtifactId
  pub fact_id : Option MemoryFactId

unfoldable pub evidence_citation :
    Thread
    → EvidenceTarget
    → Option String
    → Option StoredMemoryFact
    → Option StoredArtifact
    → MemoryCitationRef
evidence_citation thread target turn_summary fact (some artifact) = record {
  thread_id = thread.id;
  turn_id = some artifact.reference.turn_id;
  artifact_id = some artifact.reference.id;
  note = artifact.reference.summary;
}
evidence_citation thread target turn_summary (some fact) none =
    first_or
      (record {
        thread_id = thread.id;
        turn_id = target.turn_id;
        artifact_id = none;
        note = fact.subject;
      })
      fact.citations
evidence_citation thread target turn_summary none none = record {
  thread_id = thread.id;
  turn_id = target.turn_id;
  artifact_id = target.artifact_id;
  note = unwrap_or "Session evidence" turn_summary;
}

unfoldable pub open_evidence : ThreadId → EvidenceTarget → Exec MemoryEvidenceView
unfolding ◌>>=◌ maybe_artifact turn_summary_in fact_in evidence_citation
open_evidence thread_id target =
    if is_none target.turn_id && is_none target.artifact_id && is_none target.fact_id
    then raise (
        invalid_state "memory_evidence_target_required"
          "memory/open_evidence requires a turn, artifact, or fact target")
    else (do
      thread ← find_thread thread_id
      snapshot ← read_global_memory
      entries ← read_turn_log thread_id
      let turn_summary = find_by (turn_summary_in entries) target.turn_id
      let fact = find_by (fact_in snapshot.facts) target.fact_id
      artifact ← maybe_artifact target.artifact_id
      pure (record {
        citation = evidence_citation thread target turn_summary fact artifact;
        thread_title = some thread.title;
        turn_summary = turn_summary;
        fact_id = optional (λ (f : StoredMemoryFact). f.id) fact;
        fact_kind = optional (λ (f : StoredMemoryFact). f.kind) fact;
        fact_value = optional (λ (f : StoredMemoryFact). f.value) fact;
        artifact = optional (λ (a : StoredArtifact). a.reference) artifact;
        artifact_body = optional (λ (a : StoredArtifact). a.body) artifact;
      }))

pub record MemoryTopicSummary : Type 0 where
  pub name : String
  pub aliases : List String
  pub summary : String
  pub status : MemoryTopicStatus
  pub last_active_at : Option Timestamp
  pub related_thread_ids : List ThreadId
  pub related_artifact_ids : List ArtifactId
  pub citation_fact_ids : List MemoryFactId
  pub recent_keywords : List String

abbrev pub topic_summary_from_record : StoredTopicRecord → MemoryTopicSummary
topic_summary_from_record topic = record {
  name = topic.name;
  aliases = topic.aliases;
  summary = topic.summary;
  status = topic.status;
  last_active_at = some topic.last_active_at;
  related_thread_ids = topic.related_thread_ids;
  related_artifact_ids = topic.related_artifact_ids;
  citation_fact_ids = topic.citation_fact_ids;
  recent_keywords = topic.recent_keywords;
}

abbrev pub status_index : MemoryTopicStatus → ℕ
status_index MemoryTopicStatus.active = 0
status_index MemoryTopicStatus.resolved = 1
status_index MemoryTopicStatus.stale = 2

abbrev pub topic_matches : Option MemoryTopicStatus → StoredTopicRecord → Bool
topic_matches none topic = true
topic_matches (some status) topic = eqb (status_index topic.status) (status_index status)

abbrev pub latest_topic_first : MemoryTopicSummary → MemoryTopicSummary → Bool
latest_topic_first left right = option_le right.last_active_at left.last_active_at

unfoldable pub list_topics : Option MemoryTopicStatus → Option ℕ → Exec (List MemoryTopicSummary)
unfolding ◌>>=◌ sort_by retain
list_topics status limit = do
  snapshot ← read_global_memory
  pure (
      take (unwrap_or 12 limit) (
        sort_by latest_topic_first
          (map topic_summary_from_record (retain (topic_matches status) snapshot.topic_index))))
