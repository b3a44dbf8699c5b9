-- ===== src/Runtime/TurnManager/Waiting.antt =====
-- The two steps of an approval in the turn manager: a turn waits, and it runs again.
use liz.Prelude.{String, ◌≡◌, Option, none, some, [], ◌∷◌, arith, eq_refl}
use liz.Text.{format}
use liz.Assoc.{lookup}
use liz.Assoc.Laws.{lookup-insert}
use liz.Protocol.Ids.{ThreadId, TurnId}
use liz.Protocol.Thread.{Thread, ThreadStatus}
use liz.Protocol.Turn.{Turn, TurnStatus}
use liz.Runtime.Error.{ok}
use liz.Runtime.State.{RuntimeCoordinator}
use liz.Runtime.Stores.{put_thread, get_thread}
use liz.Runtime.Ids.{now_timestamp}
use liz.Runtime.TurnManager.{
  find_thread, find_turn, put_turn, waiting_thread, running_thread, mark_waiting_approval,
  mark_running,
}
use liz.Runtime.TurnManager.Outcomes.{Answers, next_time, log_turn_laws}

-- A text made of a goal, or another one where there is none.
abbrev pub if_some : Option String → String → (String → String) → String
if_some none other text_of = other
if_some (some goal) other text_of = text_of goal

-- With a file system that answers, a turn in memory, for a thread on file under its own id, is
-- made to wait: it stays in memory as waiting for approval with the reason as its summary, and the
-- thread is on file as waiting.
pub mark_waiting_approval_lem :
    (thread_id : ThreadId) (turn_id : TurnId) (reason : String) (s : RuntimeCoordinator)
    (thread : Thread) (turn : Turn)
    → Answers s
    → lookup thread_id s.stores.paths.threads ≡ some thread
    → thread.id ≡ thread_id
    → lookup turn_id s.turn_manager.active_turns ≡ some turn
    → let (result, after) = mark_waiting_approval thread_id turn_id reason s in
      let waiting : Turn = record turn {
        status = TurnStatus.waiting_approval;
        summary = some reason;
      } in
      (result ≡ ok waiting)
      × (lookup turn_id after.turn_manager.active_turns ≡ some waiting)
      × (lookup thread_id after.stores.paths.threads
          ≡ some (waiting_thread thread turn reason (next_time s)))
unfolding mark_waiting_approval find_thread find_turn put_turn now_timestamp get_thread put_thread
    waiting_thread
mark_waiting_approval_lem thread_id turn_id reason s thread turn a f i m =
    grind (arith, lookup-insert, eq_refl, log_turn_laws)

-- With a file system that answers, a turn in memory, for a thread on file under its own id, is set
-- running: it stays in memory as running, with nothing else of it changed, and the thread is on
-- file as active, at the time of the clock, with the goal that is worked on as its summary, with the
-- turn as its latest, and else as it was.
pub mark_running_lem :
    (thread_id : ThreadId) (turn_id : TurnId) (s : RuntimeCoordinator) (thread : Thread)
    (turn : Turn)
    → Answers s
    → lookup thread_id s.stores.paths.threads ≡ some thread
    → thread.id ≡ thread_id
    → lookup turn_id s.turn_manager.active_turns ≡ some turn
    → let (result, after) = mark_running thread_id turn_id s in
      let running : Turn = record turn { status = TurnStatus.running } in
      let working =
        if_some turn.goal "Currently working on the requested turn"
          (λ goal. format ("Currently working on: " ∷ goal ∷ [])) in
      let active : Thread = record thread {
        status = ThreadStatus.active;
        updated_at = next_time s;
        active_summary = some working;
        latest_turn_id = some turn.id;
      } in
      (result ≡ ok running)
      × (lookup turn_id after.turn_manager.active_turns ≡ some running)
      × (lookup thread_id after.stores.paths.threads ≡ some active)
unfolding mark_running find_thread find_turn put_turn now_timestamp get_thread put_thread
    running_thread
mark_running_lem thread_id turn_id s thread turn a f i m =
    grind (arith, lookup-insert, eq_refl, log_turn_laws)
