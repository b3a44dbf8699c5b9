-- ===== src/Runtime/TurnManager/Sequence.antt =====
-- The sequence numbers of a thread's log, as the turn manager gives them out.
use liz.Prelude.{
  ℕ, ◌+◌, ◌^◌, ◌≤◌, ◌<◌, String, ◌≡◌, refl, List, [], ◌∷◌, ◌++◌, arith, eq_iff, All, unwrap_or,
}
use liz.Assoc.{Assoc, lookup}
use liz.Assoc.Laws.{lookup-insert}
use liz.Protocol.Ids.{ThreadId, TurnId, Timestamp}
use liz.Protocol.Thread.{Thread}
use liz.Protocol.Requests.{TurnStartRequest, TurnCancelRequest}
use liz.Storage.{TurnLogEntry}
use liz.Runtime.State.{RuntimeCoordinator}
use liz.Runtime.Stores.{append_turn_log, read_turn_log}
use liz.Runtime.TurnManager.{
  last_sequence, recover_sequence, bump, next_sequence_for, log_turn, insert_turn, put_turn,
  remove_turn, start_turn, cancel_turn, mark_waiting_approval, mark_running, complete_turn,
  fail_turn,
}
use liz.Runtime.TurnManager.Frames.{log_frames, logs}

-- Each entry has a larger number than those before it.
abbrev pub IsIncreasing : List TurnLogEntry → Type 0
IsIncreasing [] = Unit
IsIncreasing (e ∷ es) = All (λ f. e.sequence < f.sequence) es × IsIncreasing es

abbrev pub entries_of : ThreadId → Assoc (List TurnLogEntry) → List TurnLogEntry
entries_of id files = unwrap_or [] (lookup id files)

-- The number after which the next entry of the thread is numbered.
unfoldable pub counter : ThreadId → Assoc (List TurnLogEntry) → Assoc ℕ → ℕ
counter id files given = unwrap_or (last_sequence (entries_of id files)) (lookup id given)

pub record IsNumbered (id : ThreadId) (files : Assoc (List TurnLogEntry)) (given : Assoc ℕ)
    : Type 0 where
  pub increasing : IsIncreasing (entries_of id files)
  pub ahead : last_sequence (entries_of id files) ≤ counter id files given

pub last_sequence-append :
    (es : List TurnLogEntry) (e : TurnLogEntry) → last_sequence (es ++ e ∷ []) ≡ e.sequence
unfolding last_sequence
last_sequence-append [] e = refl
last_sequence-append (d ∷ []) e = refl
last_sequence-append (d ∷ (c ∷ es)) e = last_sequence-append (c ∷ es) e

All-below_append :
    (n : ℕ) (es : List TurnLogEntry) (e : TurnLogEntry)
    → All (λ f. n < f.sequence) es
    → n < e.sequence
    → All (λ f. n < f.sequence) (es ++ e ∷ [])
All-below_append n [] e h l = (l, tt)
All-below_append n (d ∷ es) e (h, hs) l = (h, All-below_append n es e hs l)

last_above :
    (n : ℕ) (d : TurnLogEntry) (es : List TurnLogEntry)
    → All (λ f. n < f.sequence) (d ∷ es)
    → n < last_sequence (d ∷ es)
unfolding last_sequence
last_above n d [] (h, _) = h
last_above n d (c ∷ es) (h, hs) = last_above n c es hs

head_below_last :
    (d : TurnLogEntry) (es : List TurnLogEntry)
    → IsIncreasing (d ∷ es)
    → d.sequence ≤ last_sequence (d ∷ es)
unfolding last_sequence
head_below_last d [] h = omega arith
head_below_last d (c ∷ es) (h, _) = omega (arith, last_above d.sequence c es h)

IsIncreasing-append :
    (es : List TurnLogEntry) (e : TurnLogEntry)
    → IsIncreasing es
    → last_sequence es < e.sequence
    → IsIncreasing (es ++ e ∷ [])
unfolding last_sequence
IsIncreasing-append [] e h l = (tt, tt)
IsIncreasing-append (d ∷ []) e h l = ((l, tt), (tt, tt))
IsIncreasing-append (d ∷ (c ∷ es)) e (h, hs) l = (
  All-below_append d.sequence (c ∷ es) e h (omega (arith, last_above d.sequence c es h)),
  IsIncreasing-append (c ∷ es) e hs l,
)

pub log_turn-IsNumbered :
    (id : ThreadId) (turn : TurnId) (now : Timestamp) (event summary : String) (j : ThreadId)
    (s : RuntimeCoordinator)
    → counter id (logs s) s.turn_manager.next_sequence + 1 < 2 ^ 64
    → IsNumbered j (logs s) s.turn_manager.next_sequence
    → IsNumbered j
        (logs (log_turn id turn now event summary s).1)
        (log_turn id turn now event summary s).1.turn_manager.next_sequence
unfolding log_turn next_sequence_for recover_sequence read_turn_log append_turn_log counter bump
log_turn-IsNumbered id turn now event summary j s room h = grind (
  arith,
  h.increasing,
  h.ahead,
  lookup-insert,
  eq_iff id j,
  last_sequence-append,
  IsIncreasing-append,
)

-- The next number of every thread fits in 64 bits.
abbrev pub HasRoom : RuntimeCoordinator → Type 0
HasRoom s = (id : ThreadId) → counter id (logs s) s.turn_manager.next_sequence + 1 < 2 ^ 64

abbrev pub HasNumberedLog : ThreadId → RuntimeCoordinator → Type 0
HasNumberedLog id s = IsNumbered id (logs s) s.turn_manager.next_sequence

module _ (j : ThreadId) (s : RuntimeCoordinator) where
  pub start_turn-HasNumberedLog :
      (thread : Thread) (request : TurnStartRequest)
      → HasRoom s
      → HasNumberedLog j s
      → HasNumberedLog j (start_turn thread request s).1
  unfolding start_turn insert_turn
  start_turn-HasNumberedLog thread request room h = grind (arith, log_frames, log_turn-IsNumbered)

  pub cancel_turn-HasNumberedLog :
      (request : TurnCancelRequest)
      → HasRoom s
      → HasNumberedLog j s
      → HasNumberedLog j (cancel_turn request s).1
  unfolding cancel_turn remove_turn
  cancel_turn-HasNumberedLog request room h = grind (arith, log_frames, log_turn-IsNumbered)

  pub complete_turn-HasNumberedLog :
      (thread_id : ThreadId) (turn_id : TurnId) (message : String)
      → HasRoom s
      → HasNumberedLog j s
      → HasNumberedLog j (complete_turn thread_id turn_id message s).1
  unfolding complete_turn remove_turn
  complete_turn-HasNumberedLog thread_id turn_id message room h =
      grind (arith, log_frames, log_turn-IsNumbered)

  pub fail_turn-HasNumberedLog :
      (thread_id : ThreadId) (turn_id : TurnId) (message : String)
      → HasRoom s
      → HasNumberedLog j s
      → HasNumberedLog j (fail_turn thread_id turn_id message s).1
  unfolding fail_turn remove_turn
  fail_turn-HasNumberedLog thread_id turn_id message room h =
      grind (arith, log_frames, log_turn-IsNumbered)

  pub mark_waiting_approval-HasNumberedLog :
      (thread_id : ThreadId) (turn_id : TurnId) (reason : String)
      → HasRoom s
      → HasNumberedLog j s
      → HasNumberedLog j (mark_waiting_approval thread_id turn_id reason s).1
  unfolding mark_waiting_approval put_turn
  mark_waiting_approval-HasNumberedLog thread_id turn_id reason room h =
      grind (arith, log_frames, log_turn-IsNumbered)

  pub mark_running-HasNumberedLog :
      (thread_id : ThreadId) (turn_id : TurnId)
      → HasRoom s
      → HasNumberedLog j s
      → HasNumberedLog j (mark_running thread_id turn_id s).1
  unfolding mark_running put_turn
  mark_running-HasNumberedLog thread_id turn_id room h =
      grind (arith, log_frames, log_turn-IsNumbered)
