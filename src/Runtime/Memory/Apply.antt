-- ===== src/Runtime/Memory/Apply.antt =====
-- How runtime/memory.rs applies the changes of a compilation: the facts in their order, the topics, and
-- the snapshot written back.
use Prim.Native.Char.{Char}
use liz.Prelude.{
  String, Bool, not, ◌&&◌, Option, List, [], ◌∷◌, ◌++◌, ◌==◌, map, retain, any, length, sort_by,
  dedup, unwrap_or, or_else,
}
use liz.Text.{trim, is_empty, join, format, text_le}
use liz.Text.Digits.{to_decimal}
use liz.Protocol.Ids.{ThreadId, ArtifactId, MemoryFactId, Timestamp}
use liz.Protocol.Thread.{Thread}
use liz.Protocol.Memory.{MemoryFactKind, MemoryCitationRef}
use liz.Storage.{GlobalMemorySnapshot, StoredMemoryFact, TurnLogEntry}
use liz.Runtime.Exec.{Exec, pure, ◌>>=◌, ◌>>◌}
use liz.Runtime.Ids.{now_timestamp}
use liz.Runtime.Stores.{read_global_memory, write_global_memory}
use liz.Runtime.Memory.{FactSpec, Ledger, same_kind, upsert_facts, invalidate_all}
use liz.Runtime.Memory.Tokens.{among, slugify, concat}
use liz.Runtime.Memory.Compile.{
  MemoryCompilationInput, MemoryDeltaFact, MemoryCompilationDelta, TopicNews, to_list,
  sync_topic_index,
}

pub record MemoryCompilationSummary : Type 0 where
  pub delta_summary : String
  pub updated_fact_ids : List MemoryFactId
  pub invalidated_fact_ids : List MemoryFactId
  pub recent_topics : List String
  pub recent_keywords : List String
  pub candidate_procedures : List String

-- What every fact of one compilation has.
pub record Basis : Type 0 where
  pub thread_id : ThreadId
  pub keywords : List String
  pub citations : List MemoryCitationRef
  pub now : Timestamp

abbrev pub spec_of : Basis → MemoryFactKind → String → String → FactSpec
spec_of basis kind subject value = record {
  kind = kind;
  subject = subject;
  value = value;
  keywords = basis.keywords;
  related_thread_ids = basis.thread_id ∷ [];
  citations = basis.citations;
  updated_at = basis.now;
}

abbrev pub thread_subject : Basis → String → String
thread_subject basis what = format ("thread:" ∷ basis.thread_id ∷ ":" ∷ what ∷ [])

abbrev pub goal_specs : Basis → Thread → List FactSpec
goal_specs basis thread =
    map (spec_of basis MemoryFactKind.active_state (thread_subject basis "active_state"))
      (to_list thread.active_summary)
    ++ map (spec_of basis MemoryFactKind.decision (thread_subject basis "current_goal"))
        (to_list thread.active_goal)

abbrev pub identity_specs : Basis → Option String → List FactSpec
identity_specs basis summary =
    map (spec_of basis MemoryFactKind.identity "owner:identity_summary") (to_list summary)

abbrev pub kind_of : MemoryDeltaFact → MemoryFactKind
kind_of fact = unwrap_or MemoryFactKind.identity fact.kind

abbrev pub keywords_or : List String → List String → List String
keywords_or fallback [] = fallback
keywords_or fallback (keyword ∷ keywords) = keyword ∷ keywords

abbrev pub durable_spec : Basis → MemoryDeltaFact → FactSpec
durable_spec basis fact = record (spec_of basis (kind_of fact) fact.subject fact.value) {
  keywords = keywords_or basis.keywords fact.keywords;
}

abbrev pub durable_specs : Basis → List MemoryDeltaFact → List FactSpec
durable_specs basis facts =
    map (durable_spec basis)
      (retain (λ f. not (same_kind (kind_of f) MemoryFactKind.procedure_candidate)) facts)

-- A commitment of the thread that is not among the active ones.
abbrev pub is_dropped : Basis → List String → StoredMemoryFact → Bool
is_dropped basis active_subjects fact =
    same_kind fact.kind MemoryFactKind.commitment
    && among fact.related_thread_ids basis.thread_id
    && not (among active_subjects fact.subject)

unfoldable pub invalidate_subjects : List String → Timestamp → Ledger → Exec Ledger
unfolding invalidate_all any
invalidate_subjects [] now ledger = pure ledger
invalidate_subjects (subject ∷ rest) now ledger =
    invalidate_all (λ f. among (subject ∷ rest) f.subject) now ledger

unfoldable pub invalidate_candidate_subjects : List String → Timestamp → Ledger → Exec Ledger
unfolding invalidate_subjects retain trim
invalidate_candidate_subjects subjects now ledger =
    invalidate_subjects (retain (λ s. not (is_empty s)) (map trim subjects)) now ledger

-- The number of the items and what they are, unless there are none.
abbrev pub part : {A : Type 0} → List A → String → List String
part [] what = []
part (item ∷ items) what = format (to_decimal (length (item ∷ items)) ∷ what ∷ []) ∷ []

unfoldable pub memory_compilation_user_summary : MemoryCompilationDelta → String
unfolding join to_decimal
memory_compilation_user_summary delta =
    let parts =
      part delta.commitments " commitment(s)"
      ++ part delta.durable_facts " durable note(s)"
      ++ part delta.recent_topics " topic(s)" in
    elim parts [
      | [] ↦ "No durable memory changes were needed."
      | line ∷ lines ↦ format ("Updated memory with " ∷ join ", " (line ∷ lines) ∷ "." ∷ [])
    ]

unfoldable pub with_delta : MemoryCompilationDelta → GlobalMemorySnapshot → GlobalMemorySnapshot
with_delta delta snapshot = record snapshot {
  identity_summary = or_else delta.identity_summary_update snapshot.identity_summary;
  active_state_summary = delta.active_state_summary;
  recent_topics = delta.recent_topics;
  recent_keywords = delta.recent_keywords;
}

-- The facts of a snapshot, before the compilation has changed any.
abbrev pub ledger_on : GlobalMemorySnapshot → Ledger
ledger_on snapshot = record {
  facts = snapshot.facts;
  updated_fact_ids = [];
  invalidated_fact_ids = [];
}

-- BTreeSet: the artifacts of the entries, in order and without repetitions.
unfoldable pub artifacts_of : List TurnLogEntry → List ArtifactId
unfolding sort_by dedup
artifacts_of entries =
    dedup (λ a b. a == b)
      (sort_by text_le (concat (map (λ (e : TurnLogEntry). e.artifact_ids) entries)))

abbrev pub basis_of : MemoryCompilationInput → MemoryCompilationDelta → Timestamp → Basis
basis_of input delta now = record {
  thread_id = input.thread.id;
  keywords = delta.recent_keywords;
  citations = input.citations;
  now = now;
}

-- The snapshot with the changed facts and with the topics of the thread.
unfoldable pub snapshot_with :
    MemoryCompilationInput
    → MemoryCompilationDelta
    → Timestamp
    → Ledger
    → GlobalMemorySnapshot
    → GlobalMemorySnapshot
unfolding with_delta sync_topic_index artifacts_of
snapshot_with input delta now changed snapshot =
    let news : TopicNews = record {
      thread = input.thread;
      artifact_ids = artifacts_of input.recent_entries;
      keywords = delta.recent_keywords;
      fact_ids = changed.updated_fact_ids;
      citations = input.citations;
      now = now;
    } in
    record (with_delta delta snapshot) {
      facts = changed.facts;
      topic_index = sync_topic_index news delta.recent_topics snapshot.topic_index;
    }

-- The end of `apply_compilation_delta`: the snapshot is written and the summary is given.
unfoldable pub write_changes :
    MemoryCompilationInput
    → MemoryCompilationDelta
    → Timestamp
    → GlobalMemorySnapshot
    → Ledger
    → Exec MemoryCompilationSummary
unfolding ◌>>=◌ snapshot_with memory_compilation_user_summary
write_changes input delta now snapshot changed = do
  write_global_memory (snapshot_with input delta now changed snapshot)
  pure (record {
    delta_summary = memory_compilation_user_summary delta;
    updated_fact_ids = changed.updated_fact_ids;
    invalidated_fact_ids = changed.invalidated_fact_ids;
    recent_topics = delta.recent_topics;
    recent_keywords = delta.recent_keywords;
    candidate_procedures = delta.candidate_procedures;
  })

module _ (is_alphanumeric : Char → Bool) where
  abbrev pub procedure_subject : Basis → String → String
  procedure_subject basis procedure =
      thread_subject basis (format ("procedure:" ∷ slugify is_alphanumeric procedure ∷ []))

  abbrev pub procedure_specs : Basis → List String → List FactSpec
  procedure_specs basis =
      map (λ p. spec_of basis MemoryFactKind.procedure_candidate (procedure_subject basis p) p)

  abbrev pub commitment_subject : Basis → String → String
  commitment_subject basis commitment =
      thread_subject basis (format ("commitment:" ∷ slugify is_alphanumeric commitment ∷ []))

  unfoldable pub sync_commitment_facts : Basis → List String → Ledger → Exec Ledger
  unfolding ◌>>=◌ invalidate_all upsert_facts slugify any
  sync_commitment_facts basis commitments ledger = do
    kept ←
        invalidate_all (is_dropped basis (map (commitment_subject basis) commitments)) basis.now
          ledger
    upsert_facts
        (map (λ c. spec_of basis MemoryFactKind.commitment (commitment_subject basis c) c)
          commitments)
        kept

  -- The changes of the facts, in the order of `apply_compilation_delta`.
  unfoldable pub change_facts : Basis → Thread → MemoryCompilationDelta → Ledger → Exec Ledger
  unfolding ◌>>=◌ upsert_facts sync_commitment_facts invalidate_candidate_subjects slugify
  change_facts basis thread delta ledger = do
    with_goal ← upsert_facts (goal_specs basis thread) ledger
    with_commitments ← sync_commitment_facts basis delta.commitments with_goal
    with_identity ←
        upsert_facts (identity_specs basis delta.identity_summary_update) with_commitments
    with_durable ← upsert_facts (durable_specs basis delta.durable_facts) with_identity
    without ← invalidate_candidate_subjects delta.invalidation_candidates basis.now with_durable
    upsert_facts (procedure_specs basis delta.candidate_procedures) without

  -- `apply_compilation_delta` once the snapshot was read.
  unfoldable pub apply_to :
      MemoryCompilationInput
      → MemoryCompilationDelta
      → GlobalMemorySnapshot
      → Exec MemoryCompilationSummary
  unfolding ◌>>=◌ change_facts write_changes
  apply_to input delta snapshot = do
    now ← now_timestamp
    changed ← change_facts (basis_of input delta now) input.thread delta (ledger_on snapshot)
    write_changes input delta now snapshot changed

  unfoldable pub apply_compilation_delta :
      MemoryCompilationInput → MemoryCompilationDelta → Exec MemoryCompilationSummary
  unfolding ◌>>=◌
  apply_compilation_delta input delta = do
    snapshot ← read_global_memory
    apply_to input delta snapshot
