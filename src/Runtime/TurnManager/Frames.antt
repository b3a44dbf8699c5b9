-- ===== src/Runtime/TurnManager/Frames.antt =====
-- What the steps inside a turn operation leave alone: the files calls, the clock and the log do not
-- touch the turns in memory.
use liz.Prelude.{String, List, ◌≡◌, refl, arith}
use liz.Assoc.{Assoc}
use liz.Protocol.Ids.{ThreadId, TurnId, Timestamp}
use liz.Protocol.Thread.{Thread}
use liz.Storage.{TurnLogEntry}
use liz.Runtime.State.{RuntimeCoordinator}
use liz.Runtime.Stores.{
  put_thread, get_thread, append_turn_log, read_turn_log, read_global_memory, write_global_memory,
}
use liz.Runtime.Ids.{now_timestamp, next_turn_id}
use liz.Runtime.ThreadManager.{sync_active_thread_ids, update_thread_after_turn}
use liz.Runtime.TurnManager.{recover_sequence, next_sequence_for, log_turn, find_thread, find_turn}

module _ (s : RuntimeCoordinator) where
  pub now_timestamp-turns : (now_timestamp s).1.turn_manager ≡ s.turn_manager
  unfolding now_timestamp
  now_timestamp-turns = refl

  pub next_turn_id-turns : (next_turn_id s).1.turn_manager ≡ s.turn_manager
  unfolding next_turn_id
  next_turn_id-turns = refl

  pub put_thread-turns : (t : Thread) → (put_thread t s).1.turn_manager ≡ s.turn_manager
  unfolding put_thread
  put_thread-turns t = ground arith

  pub get_thread-turns : (id : ThreadId) → (get_thread id s).1.turn_manager ≡ s.turn_manager
  unfolding get_thread
  get_thread-turns id = ground arith

  pub append_turn_log-turns :
      (e : TurnLogEntry) → (append_turn_log e s).1.turn_manager ≡ s.turn_manager
  unfolding append_turn_log
  append_turn_log-turns e = ground arith

  pub read_turn_log-turns : (id : ThreadId) → (read_turn_log id s).1.turn_manager ≡ s.turn_manager
  unfolding read_turn_log
  read_turn_log-turns id = ground arith

  pub update_thread_after_turn-turns :
      (t : Thread) → (update_thread_after_turn t s).1.turn_manager ≡ s.turn_manager
  unfolding update_thread_after_turn sync_active_thread_ids put_thread read_global_memory
      write_global_memory
  update_thread_after_turn-turns t = ground arith

  pub find_thread-turns : (id : ThreadId) → (find_thread id s).1.turn_manager ≡ s.turn_manager
  unfolding find_thread get_thread
  find_thread-turns id = ground arith

  pub find_turn-turns : (id : TurnId) → (find_turn id s).1 ≡ s
  unfolding find_turn
  find_turn-turns id = ground arith

  pub log_turn-active_turns :
      (id : ThreadId) (turn : TurnId) (now : Timestamp) (event summary : String)
      → (log_turn id turn now event summary s).1.turn_manager.active_turns
        ≡ s.turn_manager.active_turns
  unfolding log_turn next_sequence_for recover_sequence read_turn_log append_turn_log
  log_turn-active_turns id turn now event summary = ground arith

-- The log files, and the numbers that the turn manager gave out last.
abbrev pub logs : RuntimeCoordinator → Assoc (List TurnLogEntry)
logs s = s.stores.paths.turn_logs

module _ (s : RuntimeCoordinator) where
  pub now_timestamp-logs : logs (now_timestamp s).1 ≡ logs s
  unfolding now_timestamp
  now_timestamp-logs = refl

  pub next_turn_id-logs : logs (next_turn_id s).1 ≡ logs s
  unfolding next_turn_id
  next_turn_id-logs = refl

  pub put_thread-logs : (t : Thread) → logs (put_thread t s).1 ≡ logs s
  unfolding put_thread
  put_thread-logs t = ground arith

  pub update_thread_after_turn-logs : (t : Thread) → logs (update_thread_after_turn t s).1 ≡ logs s
  unfolding update_thread_after_turn sync_active_thread_ids put_thread read_global_memory
      write_global_memory
  update_thread_after_turn-logs t = ground arith

  pub find_thread-logs : (id : ThreadId) → logs (find_thread id s).1 ≡ logs s
  unfolding find_thread get_thread
  find_thread-logs id = ground arith

pub ruleset log_frames = (
  now_timestamp-logs, next_turn_id-logs, put_thread-logs, update_thread_after_turn-logs,
  find_thread-logs, now_timestamp-turns, next_turn_id-turns, put_thread-turns,
  update_thread_after_turn-turns, find_thread-turns, find_turn-turns,
)

pub ruleset turn_frames = (
  now_timestamp-turns, next_turn_id-turns, put_thread-turns, update_thread_after_turn-turns,
  find_thread-turns, find_turn-turns, log_turn-active_turns,
)
