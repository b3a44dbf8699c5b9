-- ===== src/Runtime/Ids.antt =====
-- `IdGenerator` in crates/liz-app-server/src/runtime/ids.rs.
pub mod Distinct
use liz.Prelude.{ℕ, ◌+◌, ◌/◌, ◌%◌, ◌^◌, String, List, [], ◌∷◌}
use liz.Text.{format}
use liz.Text.Digits.{to_decimal, to_hex, to_padded}
use liz.Protocol.Ids.{
  ThreadId, TurnId, ApprovalId, CheckpointId, ArtifactId, MemoryFactId, Timestamp,
}
use liz.Runtime.Error.{ok}
use liz.Runtime.State.{RuntimeCoordinator}
use liz.Runtime.Exec.{Exec}

-- SystemTime::now: one reading of the clock.
unfoldable pub read_clock : Exec ℕ
read_clock s = (
  ok (s.ids.clock s.ids.readings),
  record s { ids = record (s.ids) { readings = s.ids.readings + 1 } },
)

-- `unix:{seconds}.{nanoseconds:09}`.
unfoldable pub timestamp : ℕ → Timestamp
timestamp nanos =
    format (
      "unix:" ∷ to_decimal (nanos / 1_000_000_000) ∷ "." ∷ to_padded 9 (nanos % 1_000_000_000) ∷ [])

unfoldable pub now_timestamp : Exec Timestamp
unfolding read_clock
now_timestamp s = let (r, s') = read_clock s in (ok (timestamp (s.ids.clock s.ids.readings)), s')

-- `{prefix}_{nanoseconds:x}_{sequence}`.
unfoldable pub identifier : String → ℕ → ℕ → String
identifier prefix nanos sequence =
    format (prefix ∷ "_" ∷ to_hex nanos ∷ "_" ∷ to_decimal sequence ∷ [])

-- `fetch_add` wraps at 2 ^ 64, and so does the `+ 1` on what it returns.
unfoldable pub next_value : String → Exec String
next_value prefix s =
    let sequence = (s.ids.sequence + 1) % 2 ^ 64 in
    (
      ok (identifier prefix (s.ids.clock s.ids.readings) sequence),
      record s { ids = record (s.ids) { sequence = sequence; readings = s.ids.readings + 1 } },
    )

unfoldable pub next_thread_id : Exec ThreadId
unfolding next_value
next_thread_id = next_value "thread"

unfoldable pub next_turn_id : Exec TurnId
unfolding next_value
next_turn_id = next_value "turn"

unfoldable pub next_approval_id : Exec ApprovalId
unfolding next_value
next_approval_id = next_value "approval"

unfoldable pub next_checkpoint_id : Exec CheckpointId
unfolding next_value
next_checkpoint_id = next_value "checkpoint"

unfoldable pub next_artifact_id : Exec ArtifactId
unfolding next_value
next_artifact_id = next_value "artifact"

unfoldable pub next_memory_fact_id : Exec MemoryFactId
unfolding next_value
next_memory_fact_id = next_value "fact"
