-- ===== src/Runtime/ThreadManager.antt =====
-- `ThreadManager` in crates/liz-app-server/src/runtime/thread_manager.rs.
pub mod Active
pub mod Outcomes
use liz.Prelude.{
  String, Bool, true, false, not, Option, none, some, List, [], ◌∷◌, ◌++◌, ◌==◌, retain,
  if◌then◌else◌, unwrap_or, or_else,
}
use liz.Text.{trim, is_empty, format}
use liz.Protocol.Ids.{ThreadId}
use liz.Protocol.Thread.{Thread, ThreadStatus}
use liz.Protocol.Requests.{ThreadStartRequest, ThreadResumeRequest, ThreadForkRequest}
use liz.Runtime.Error.{RuntimeError, not_found}
use liz.Runtime.Exec.{Exec, pure, ok_or, ◌>>=◌, ◌>>◌}
use liz.Runtime.Stores.{put_thread, get_thread, read_global_memory, write_global_memory}
use liz.Runtime.Ids.{now_timestamp, next_thread_id}

abbrev pub thread_not_found : RuntimeError
thread_not_found = not_found "thread_not_found" "thread does not exist"

-- A title that is more than white space.
given_title : Option String → Option String
given_title none = none
given_title (some title) = if is_empty (trim title) then none else some title

-- The active ids with one thread moved to the end, or taken out.
unfoldable pub with_active : ThreadId → Bool → List ThreadId → List ThreadId
with_active thread_id should_be_present ids =
    let others = retain (λ value. not (value == thread_id)) ids in
    if should_be_present then others ++ thread_id ∷ [] else others

unfoldable pub sync_active_thread_ids : ThreadId → Bool → Exec (Unit {0})
unfolding ◌>>=◌ with_active
sync_active_thread_ids thread_id should_be_present = do
  snapshot ← read_global_memory
  write_global_memory (record snapshot {
    active_thread_ids = with_active thread_id should_be_present snapshot.active_thread_ids;
  })

unfoldable pub start_thread : ThreadStartRequest → Exec Thread
unfolding ◌>>=◌ given_title
start_thread request = do
  now ← now_timestamp
  id ← next_thread_id
  let thread : Thread = record {
    id = id;
    title = unwrap_or "Untitled thread" (or_else (given_title request.title) request.initial_goal);
    status = ThreadStatus.active;
    created_at = now;
    updated_at = now;
    active_goal = request.initial_goal;
    active_summary = elim request.initial_goal [
      | none ↦ none
      | some goal ↦ some (format ("New thread initialized for: " ∷ goal ∷ []))
    ];
    last_interruption = none;
    workspace_ref = request.workspace_ref;
    workspace_mount_id = request.workspace_mount_id;
    pending_commitments = [];
    latest_turn_id = none;
    latest_checkpoint_id = none;
    parent_thread_id = none;
  }
  put_thread thread
  sync_active_thread_ids thread.id true
  pure thread

unfoldable pub resume_thread : ThreadResumeRequest → Exec Thread
unfolding ◌>>=◌
resume_thread request = do
  found ← get_thread request.thread_id
  stored ← ok_or found thread_not_found
  let thread : Thread = record stored { status = ThreadStatus.active }
  put_thread thread
  sync_active_thread_ids thread.id true
  pure thread

-- The child that `fork_thread` builds from the parent on file.
unfoldable pub forked_thread : ThreadForkRequest → Thread → ThreadId → String → Thread
unfolding given_title
forked_thread request parent id now = record {
  id = id;
  title = unwrap_or (format (parent.title ∷ " (fork)" ∷ [])) (given_title request.title);
  status = ThreadStatus.active;
  created_at = now;
  updated_at = now;
  active_goal = parent.active_goal;
  active_summary = some (elim request.fork_reason [
    | some reason ↦ format ("Forked from " ∷ parent.title ∷ " to explore: " ∷ reason ∷ [])
    | none ↦ format ("Forked from " ∷ parent.title ∷ [])
  ]);
  last_interruption = parent.last_interruption;
  workspace_ref = parent.workspace_ref;
  workspace_mount_id = parent.workspace_mount_id;
  pending_commitments = elim request.fork_reason [
    | none ↦ parent.pending_commitments
    | some reason ↦ parent.pending_commitments ++ format ("Fork created for: " ∷ reason ∷ []) ∷ []
  ];
  latest_turn_id = none;
  latest_checkpoint_id = parent.latest_checkpoint_id;
  parent_thread_id = some parent.id;
}

unfoldable pub fork_thread : ThreadForkRequest → Exec Thread
unfolding ◌>>=◌ forked_thread
fork_thread request = do
  found ← get_thread request.thread_id
  parent ← ok_or found thread_not_found
  now ← now_timestamp
  id ← next_thread_id
  let thread = forked_thread request parent id now
  put_thread thread
  sync_active_thread_ids thread.id true
  pure thread

abbrev should_be_active : ThreadStatus → Bool
should_be_active ThreadStatus.archived = false
should_be_active ThreadStatus.completed = false
should_be_active _ = true

unfoldable pub update_thread_after_turn : Thread → Exec (Unit {0})
unfolding ◌>>=◌
update_thread_after_turn thread = do
  put_thread thread
  sync_active_thread_ids thread.id (should_be_active thread.status)
