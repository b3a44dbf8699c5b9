-- ===== src/Runtime/Coordinator/Tools.antt =====
-- The log entries of `record_tool_execution`, which the coordinator numbers by the length of the log
-- while the turn manager numbers its own by a counter.
use liz.Prelude.{
  ℕ, ◌+◌, ◌^◌, ◌%◌, String, ◌≡◌, refl, true, false, Option, none, some, List, [], ◌∷◌, arith,
  eq_refl, length,
}
use liz.Assoc.{lookup}
use liz.Assoc.Laws.{lookup-insert}
use liz.Protocol.Ids.{ThreadId, TurnId, Timestamp}
use liz.Protocol.Artifact.{ArtifactKind, ArtifactRef}
use liz.Runtime.Error.{is_ok}
use liz.Runtime.Exec.{Exec, pure, ◌>>=◌, ◌>>◌}
use liz.Runtime.State.{RuntimeCoordinator}
use liz.Runtime.Stores.{put_artifact, append_turn_log, read_turn_log, log_of}
use liz.Runtime.Ids.{next_artifact_id, next_turn_id, now_timestamp}
use liz.Runtime.TurnManager.{last_sequence, log_turn, next_sequence_for, recover_sequence, bump}
use liz.Runtime.TurnManager.Sequence.{counter, entries_of, last_sequence-append}
use liz.Runtime.TurnManager.Outcomes.{Answers}
use liz.Runtime.Coordinator.{
  ToolRecord, turn_or_next, put_artifacts, log_tool, next_tool_sequence, record_tool_execution,
}

module _ (locator : String → String) (tool : ToolRecord) (turn : TurnId) (now : String) where
  abbrev Pieces : Type 0
  Pieces = List (ArtifactKind × String × String)

  pub put_artifacts-turns :
      (artifacts : Pieces) (s : RuntimeCoordinator)
      → (put_artifacts locator tool turn now artifacts s).1.turn_manager ≡ s.turn_manager
  unfolding put_artifacts next_artifact_id put_artifact
  put_artifacts-turns [] s = refl
  put_artifacts-turns ((kind, summary, body) ∷ rest) s = grind (arith, put_artifacts-turns rest)

  put_artifacts-logs :
      (artifacts : Pieces) (s : RuntimeCoordinator)
      → (put_artifacts locator tool turn now artifacts s).1.stores.paths.turn_logs
        ≡ s.stores.paths.turn_logs
  unfolding put_artifacts next_artifact_id put_artifact
  put_artifacts-logs [] s = refl
  put_artifacts-logs ((kind, summary, body) ∷ rest) s = grind (arith, put_artifacts-logs rest)

  put_artifacts-faulty :
      (artifacts : Pieces) (s : RuntimeCoordinator) (n : ℕ)
      → s.stores.faulty n ≡ false
      → (put_artifacts locator tool turn now artifacts s).1.stores.faulty n ≡ false
  unfolding put_artifacts next_artifact_id put_artifact
  put_artifacts-faulty [] s n h = h
  put_artifacts-faulty ((kind, summary, body) ∷ rest) s n h =
      grind (arith, put_artifacts-faulty rest)

  put_artifacts-ok :
      (artifacts : Pieces) (s : RuntimeCoordinator)
      → Answers s
      → is_ok (put_artifacts locator tool turn now artifacts s).0 ≡ true
  unfolding put_artifacts next_artifact_id put_artifact
  put_artifacts-ok [] s a = refl
  put_artifacts-ok ((kind, summary, body) ∷ rest) s a = grind (arith, put_artifacts-ok rest)

module _ (tool : ToolRecord) (turn : TurnId) (now : Timestamp) (references : List ArtifactRef)
    (s : RuntimeCoordinator) where
  log_tool-turns : (log_tool tool turn now references s).1.turn_manager ≡ s.turn_manager
  unfolding log_tool append_turn_log next_tool_sequence read_turn_log
  log_tool-turns = ground arith

  log_tool-faulty :
      (n : ℕ)
      → s.stores.faulty n ≡ false
      → (log_tool tool turn now references s).1.stores.faulty n ≡ false
  unfolding log_tool append_turn_log next_tool_sequence read_turn_log
  log_tool-faulty n h = ground arith

  log_tool-log :
      Answers s
      → last_sequence
          (entries_of tool.thread_id (log_tool tool turn now references s).1.stores.paths.turn_logs)
        ≡ (length (entries_of tool.thread_id s.stores.paths.turn_logs) + 1) % 2 ^ 64
  unfolding log_tool append_turn_log next_tool_sequence read_turn_log log_of
  log_tool-log a = grind (arith, lookup-insert, eq_refl, last_sequence-append)

ruleset tool_frames = (
  put_artifacts-turns, put_artifacts-logs, put_artifacts-faulty, log_tool-turns, log_tool-faulty,
  log_tool-log,
)

module _ (locator : String → String) (tool : ToolRecord) (s : RuntimeCoordinator) where
  pub record_tool_execution-turns :
      (record_tool_execution locator tool s).1.turn_manager ≡ s.turn_manager
  unfolding record_tool_execution next_turn_id now_timestamp
  record_tool_execution-turns = grind (arith, tool_frames)

  record_tool_execution-faulty :
      (n : ℕ)
      → s.stores.faulty n ≡ false
      → (record_tool_execution locator tool s).1.stores.faulty n ≡ false
  unfolding record_tool_execution next_turn_id now_timestamp
  record_tool_execution-faulty n h = grind (arith, tool_frames)

-- The rest of `record_tool_execution` once it has the turn and the time.
abbrev recording :
    (String → String) → ToolRecord → TurnId → Timestamp → Exec (TurnId × List ArtifactRef)
recording locator tool turn now = do
  references ← put_artifacts locator tool turn now tool.artifacts
  log_tool tool turn now references
  pure (turn, references)

recording-log :
    (locator : String → String) (tool : ToolRecord) (turn : TurnId) (now : Timestamp)
    (s : RuntimeCoordinator)
    → Answers s
    → last_sequence
        (entries_of tool.thread_id (recording locator tool turn now s).1.stores.paths.turn_logs)
      ≡ (length (entries_of tool.thread_id s.stores.paths.turn_logs) + 1) % 2 ^ 64
unfolding ◌>>=◌
recording-log locator tool turn now s a =
    grind (arith, tool_frames, put_artifacts-ok locator tool turn now tool.artifacts s a)

abbrev recorded : (String → String) → ToolRecord → Option TurnId → Exec (TurnId × List ArtifactRef)
recorded locator tool turn_id = do
  turn ← turn_or_next turn_id
  now ← now_timestamp
  recording locator tool turn now

recorded-log :
    (locator : String → String) (tool : ToolRecord) (s : RuntimeCoordinator)
    (turn_id : Option TurnId)
    → Answers s
    → last_sequence
        (entries_of tool.thread_id (recorded locator tool turn_id s).1.stores.paths.turn_logs)
      ≡ (length (entries_of tool.thread_id s.stores.paths.turn_logs) + 1) % 2 ^ 64
unfolding ◌>>=◌ next_turn_id now_timestamp
recorded-log locator tool s none a = recording-log locator tool _ _ _ a
recorded-log locator tool s (some turn) a = recording-log locator tool turn _ _ a

record_tool_execution-log :
    (locator : String → String) (tool : ToolRecord) (s : RuntimeCoordinator)
    → Answers s
    → last_sequence
        (entries_of tool.thread_id (record_tool_execution locator tool s).1.stores.paths.turn_logs)
      ≡ (length (entries_of tool.thread_id s.stores.paths.turn_logs) + 1) % 2 ^ 64
unfolding record_tool_execution
record_tool_execution-log locator tool s a = recorded-log locator tool s tool.turn_id a

log_turn-number :
    (id : ThreadId) (turn : TurnId) (now : Timestamp) (event summary : String)
    (s : RuntimeCoordinator)
    → Answers s
    → last_sequence (entries_of id (log_turn id turn now event summary s).1.stores.paths.turn_logs)
      ≡ (counter id s.stores.paths.turn_logs s.turn_manager.next_sequence + 1) % 2 ^ 64
unfolding log_turn next_sequence_for recover_sequence read_turn_log append_turn_log log_of bump
    counter
log_turn-number id turn now event summary s a =
    rw (a s.stores.calls, a (s.stores.calls + 1)) grind
      (arith, lookup-insert, eq_refl, last_sequence-append)

-- With a file system that answers, let the last number that the turn manager gave on a thread be
-- the length of the thread's log. When a tool is recorded on the thread and the turn manager then
-- logs an entry, the last entry of the log has the same number after both.
pub record_tool_execution-repeats :
    (locator : String → String) (tool : ToolRecord) (turn : TurnId) (now : Timestamp)
    (event summary : String) (s : RuntimeCoordinator)
    → Answers s
    → lookup tool.thread_id s.turn_manager.next_sequence
      ≡ some (length (entries_of tool.thread_id s.stores.paths.turn_logs))
    → let recorded = (record_tool_execution locator tool s).1 in
      let after = (log_turn tool.thread_id turn now event summary recorded).1 in
      last_sequence (entries_of tool.thread_id after.stores.paths.turn_logs)
      ≡ last_sequence (entries_of tool.thread_id recorded.stores.paths.turn_logs)
unfolding counter
record_tool_execution-repeats locator tool turn now event summary s a n = grind (
  arith,
  record_tool_execution-turns locator tool s,
  record_tool_execution-log locator tool s a,
  log_turn-number tool.thread_id turn now event summary (record_tool_execution locator tool s).1
      (λ i. record_tool_execution-faulty locator tool s i (a i)),
)
