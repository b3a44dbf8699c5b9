-- ===== src/Runtime/Coordinator/Frames.antt =====
-- What the operations on threads, mounts, approvals and checkpoints leave alone: the turn manager and
-- the log files.
use liz.Prelude.{String, ◌≡◌, refl, Bool, arith}
use liz.Protocol.Ids.{ThreadId, TurnId}
use liz.Protocol.Requests.{ThreadStartRequest, ThreadResumeRequest, ThreadForkRequest}
use liz.Runtime.State.{RuntimeCoordinator}
use liz.Runtime.Stores.{
  put_checkpoint, write_node_registry, read_global_memory, write_global_memory, get_thread,
}
use liz.Runtime.Ids.{next_checkpoint_id, next_thread_id}
use liz.Runtime.ThreadManager
use liz.Runtime.ThreadManager.{sync_active_thread_ids}
use liz.Runtime.TurnManager.Frames.{
  find_thread-turns, put_thread-turns, now_timestamp-turns, find_thread-logs, put_thread-logs,
  now_timestamp-logs, logs,
}
use liz.Runtime.Coordinator
use liz.Runtime.Coordinator.{
  on_registry, persist_node_registry, read_workspace_mount, resolve_thread_workspace_mount,
  create_checkpoint, checkpoint_if,
}

-- The second state has the turn manager and the logs of the first.
abbrev pub Keeps : RuntimeCoordinator → RuntimeCoordinator → Type 0
Keeps s t = (t.turn_manager ≡ s.turn_manager) × (logs t ≡ logs s)

module _ (s : RuntimeCoordinator) where
  sync_active_thread_ids-Keeps :
      (id : ThreadId) (b : Bool) → Keeps s (sync_active_thread_ids id b s).1
  unfolding sync_active_thread_ids read_global_memory write_global_memory
  sync_active_thread_ids-Keeps id b = ground arith

  next_thread_id-Keeps : Keeps s (next_thread_id s).1
  unfolding next_thread_id
  next_thread_id-Keeps = (refl, refl)

  get_thread-Keeps : (id : ThreadId) → Keeps s (get_thread id s).1
  unfolding get_thread
  get_thread-Keeps id = ground arith

  pub persist_node_registry-Keeps : Keeps s (persist_node_registry s).1
  unfolding persist_node_registry write_node_registry
  persist_node_registry-Keeps = ground arith

ruleset thread_frames = (
  sync_active_thread_ids-Keeps, next_thread_id-Keeps, get_thread-Keeps, persist_node_registry-Keeps,
  put_thread-turns, now_timestamp-turns, find_thread-turns, put_thread-logs, now_timestamp-logs,
  find_thread-logs,
)

module _ (s : RuntimeCoordinator) where
  resolve_thread_workspace_mount-Keeps :
      (r : ThreadStartRequest) → Keeps s (resolve_thread_workspace_mount r s).1
  unfolding resolve_thread_workspace_mount read_workspace_mount on_registry
  resolve_thread_workspace_mount-Keeps r = grind (arith, persist_node_registry-Keeps)

  manager_start_thread-Keeps : (r : ThreadStartRequest) → Keeps s (ThreadManager.start_thread r s).1
  unfolding ThreadManager.start_thread
  manager_start_thread-Keeps r = grind (arith, thread_frames)

module _ (s : RuntimeCoordinator) where
  pub start_thread-Keeps : (r : ThreadStartRequest) → Keeps s (Coordinator.start_thread r s).1
  unfolding Coordinator.start_thread
  start_thread-Keeps r =
      grind (arith, resolve_thread_workspace_mount-Keeps, manager_start_thread-Keeps)

  pub resume_thread-Keeps : (r : ThreadResumeRequest) → Keeps s (Coordinator.resume_thread r s).1
  unfolding Coordinator.resume_thread ThreadManager.resume_thread
  resume_thread-Keeps r = grind (arith, thread_frames)

  pub fork_thread-Keeps : (r : ThreadForkRequest) → Keeps s (Coordinator.fork_thread r s).1
  unfolding Coordinator.fork_thread ThreadManager.fork_thread
  fork_thread-Keeps r = grind (arith, thread_frames)

  pub checkpoint_if-Keeps :
      (b : Bool) (id : ThreadId) (turn : TurnId) (reason : String)
      → Keeps s (checkpoint_if b id turn reason s).1
  unfolding checkpoint_if create_checkpoint next_checkpoint_id put_checkpoint
  checkpoint_if-Keeps b id turn reason = grind (arith, thread_frames)
