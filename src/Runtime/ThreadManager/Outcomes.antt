-- ===== src/Runtime/ThreadManager/Outcomes.antt =====
-- What starting and forking a thread leaves on file.
use liz.Prelude.{ℕ, ◌+◌, ◌%◌, ◌^◌, ◌≡◌, ◌≢◌, true, false, some, arith, eq_refl, eq_iff}
use liz.Assoc.{lookup}
use liz.Assoc.Laws.{lookup-insert}
use liz.Protocol.Ids.{ThreadId}
use liz.Protocol.Thread.{Thread}
use liz.Protocol.Requests.{ThreadForkRequest}
use liz.Runtime.Error.{ok}
use liz.Runtime.State.{RuntimeCoordinator}
use liz.Runtime.Stores.{put_thread, get_thread, read_global_memory, write_global_memory, memory_of}
use liz.Runtime.Ids.{identifier, timestamp, next_thread_id, now_timestamp}
use liz.Runtime.ThreadManager.{sync_active_thread_ids, with_active, forked_thread, fork_thread}

-- Forking a thread that is on file, with a file system that answers, puts the child on file under
-- the id it is given and on the list of active threads, and leaves what is on file under every
-- other id as it was.
pub fork_thread_lem :
    (request : ThreadForkRequest) (s : RuntimeCoordinator) (parent : Thread) (j : ThreadId)
    → ((n : ℕ) → s.stores.faulty n ≡ false)
    → lookup request.thread_id s.stores.paths.threads ≡ some parent
    → let (result, after) = fork_thread request s in
      let now = timestamp (s.ids.clock s.ids.readings) in
      let id =
        identifier "thread" (s.ids.clock (s.ids.readings + 1)) ((s.ids.sequence + 1) % 2 ^ 64) in
      let child = forked_thread request parent id now in
      (result ≡ ok child)
      × (lookup id after.stores.paths.threads ≡ some child)
      × (j ≢ id → lookup j after.stores.paths.threads ≡ lookup j s.stores.paths.threads)
      × ((memory_of after.stores.paths).active_thread_ids
          ≡ with_active id true (memory_of s.stores.paths).active_thread_ids)
unfolding fork_thread get_thread now_timestamp next_thread_id put_thread sync_active_thread_ids
    read_global_memory write_global_memory memory_of forked_thread
fork_thread_lem request s parent j a p = grind (
  arith,
  lookup-insert,
  eq_refl,
  eq_iff (identifier "thread" (s.ids.clock (s.ids.readings + 1)) ((s.ids.sequence + 1) % 2 ^ 64)) j,
)
