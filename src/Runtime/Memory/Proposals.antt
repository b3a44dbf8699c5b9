-- ===== src/Runtime/Memory/Proposals.antt =====
-- What runtime/memory.rs proposes to change in the memory: the compilation by words, and the changes a
-- model answered with, once they are cleaned.
use Prim.Native.Char.{Char}
use liz.Prelude.{
  String, Bool, not, ◌&&◌, Option, none, List, [], ◌∷◌, ◌++◌, map, retain, or_else, ◌⊎◌, inl, inr,
}
use liz.Text.{trim, is_empty, format}
use liz.Protocol.Ids.{ThreadId}
use liz.Runtime.Error.{invalid_state}
use liz.Runtime.Exec.{Exec, pure, raise, ◌>>=◌}
use liz.Runtime.Memory.Tokens.{
  sanitize_string_list, prefer_sanitized_list, sanitize_optional_string, derive_topics_from_text,
  derive_keywords_from_text,
}
use liz.Runtime.Memory.Compile.{
  MemoryCompilationInput, MemoryDeltaFact, MemoryCompilationDelta, to_list, summaries,
  build_compilation_input, derive_candidate_procedures, derive_identity_summary_update,
}
use liz.Runtime.Memory.Apply.{MemoryCompilationSummary, apply_compilation_delta}

module _ (is_alphanumeric : Char → Bool) where
  unfoldable pub heuristic_compile : MemoryCompilationInput → MemoryCompilationDelta
  unfolding derive_topics_from_text derive_keywords_from_text derive_candidate_procedures
      derive_identity_summary_update retain trim
  heuristic_compile input =
      let recent = retain (λ s. not (is_empty (trim s))) (summaries input.recent_entries) in
      let texts =
        input.thread.title ∷ to_list input.thread.active_goal
        ++ to_list input.thread.active_summary
        ++ recent in
      let topics = derive_topics_from_text is_alphanumeric texts 6 in
      record {
        identity_summary_update = derive_identity_summary_update input;
        active_state_summary = input.thread.active_summary;
        recent_topics = topics;
        recent_keywords = derive_keywords_from_text is_alphanumeric texts 8;
        commitments = input.thread.pending_commitments;
        candidate_procedures = derive_candidate_procedures input.recent_entries topics;
        durable_facts = [];
        invalidation_candidates = [];
      }

  unfoldable pub compile_thread : ThreadId → Exec MemoryCompilationSummary
  unfolding ◌>>=◌ build_compilation_input heuristic_compile apply_compilation_delta
  compile_thread thread_id = do
    input ← build_compilation_input thread_id
    apply_compilation_delta is_alphanumeric input (heuristic_compile input)

  abbrev pub sanitized_fact : MemoryDeltaFact → MemoryDeltaFact
  sanitized_fact fact = record {
    kind = fact.kind;
    subject = trim fact.subject;
    value = trim fact.value;
    keywords = sanitize_string_list fact.keywords 12;
  }

  abbrev pub sanitized_facts : List MemoryDeltaFact → List MemoryDeltaFact
  sanitized_facts facts = map sanitized_fact (
      retain
        (λ (f : MemoryDeltaFact). not (is_empty (trim f.subject)) && not (is_empty (trim f.value)))
        facts)

  abbrev pub unless_empty : {A : Type 0} → List A → Option String → Option String
  unless_empty [] o = none
  unless_empty (a ∷ rest) o = o

  -- The texts a model proposed, cleaned, with what the thread says where it proposed none.
  unfoldable pub accepted : MemoryCompilationInput → MemoryCompilationDelta → MemoryCompilationDelta
  unfolding sanitize_optional_string prefer_sanitized_list sanitize_string_list
      derive_topics_from_text derive_keywords_from_text retain trim
  accepted input parsed =
      let recent = summaries input.recent_entries in
      record {
        identity_summary_update =
            unless_empty input.citations (sanitize_optional_string parsed.identity_summary_update);
        active_state_summary =
            or_else (sanitize_optional_string parsed.active_state_summary)
              input.thread.active_summary;
        recent_topics =
            prefer_sanitized_list parsed.recent_topics
              (derive_topics_from_text is_alphanumeric recent 6) 8;
        recent_keywords =
            prefer_sanitized_list parsed.recent_keywords
              (derive_keywords_from_text is_alphanumeric recent 8) 12;
        commitments = prefer_sanitized_list parsed.commitments input.thread.pending_commitments 12;
        candidate_procedures = sanitize_string_list parsed.candidate_procedures 8;
        durable_facts = sanitized_facts parsed.durable_facts;
        invalidation_candidates = sanitize_string_list parsed.invalidation_candidates 16;
      }

  -- `serde_json::from_str` gives the proposed changes, or the text of its error.
  module _ (from_json : String → String ⊎ MemoryCompilationDelta) where
    unfoldable pub parse_llm_memory_delta :
        String → MemoryCompilationInput → Exec MemoryCompilationDelta
    unfolding ◌>>=◌ accepted
    parse_llm_memory_delta raw_json input = elim (from_json raw_json) [
      | inl error ↦ raise (
          invalid_state "memory_compilation_json_invalid"
            (format ("memory compiler returned invalid JSON: " ∷ error ∷ [])))
      | inr parsed ↦ pure (accepted input parsed)
    ]

    unfoldable pub compile_thread_from_llm_output :
        ThreadId → String → Exec MemoryCompilationSummary
    unfolding ◌>>=◌ build_compilation_input parse_llm_memory_delta apply_compilation_delta
    compile_thread_from_llm_output thread_id raw_json = do
      input ← build_compilation_input thread_id
      delta ← parse_llm_memory_delta raw_json input
      apply_compilation_delta is_alphanumeric input delta
