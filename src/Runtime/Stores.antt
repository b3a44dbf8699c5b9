-- ===== src/Runtime/Stores.antt =====
-- The calls of `RuntimeStores` in crates/liz-app-server/src/runtime/stores.rs, with the file-system
-- stores behind them. A call reads or writes one file, or fails.
use liz.Prelude.{◌+◌, Option, some, List, [], ◌∷◌, ◌++◌, if◌then◌else◌, unwrap_or}
use liz.Assoc.{lookup, insert, values}
use liz.Protocol.Ids.{ThreadId, CheckpointId, ArtifactId}
use liz.Protocol.Thread.{Thread}
use liz.Protocol.Checkpoint.{Checkpoint}
use liz.Storage.{
  TurnLogEntry, GlobalMemorySnapshot, empty_snapshot, StoredArtifact, NodeRegistrySnapshot,
  StoragePaths, AuthProfileSnapshot,
}
use liz.Runtime.Error.{ok, err, storage}
use liz.Runtime.Exec.{Exec}

unfoldable pub read_file : {A : Type 0} → (StoragePaths → A) → Exec A
read_file read s =
    let next = record s { stores = record (s.stores) { calls = s.stores.calls + 1 } } in
    if s.stores.faulty s.stores.calls then (err storage, next) else (ok (read s.stores.paths), next)

-- A write that fails is taken to fail before it has changed anything, as when the file cannot be
-- opened; one that fails half way through is not modelled.
unfoldable pub write_file : (StoragePaths → StoragePaths) → Exec (Unit {0})
write_file write s =
    let next = record (s.stores) { calls = s.stores.calls + 1 } in
    if s.stores.faulty s.stores.calls
    then (err storage, record s { stores = next })
    else (ok tt, record s { stores = record next { paths = write s.stores.paths } })

unfoldable pub put_thread : Thread → Exec (Unit {0})
unfolding write_file
put_thread thread = write_file (λ p. record p { threads = insert thread.id thread p.threads })

unfoldable pub get_thread : ThreadId → Exec (Option Thread)
unfolding read_file
get_thread thread_id = read_file (λ p. lookup thread_id p.threads)

unfoldable pub list_threads : Exec (List Thread)
unfolding read_file
list_threads = read_file (λ p. values p.threads)

-- The entries of a thread's log, oldest first; no file is no entry.
unfoldable pub log_of : ThreadId → StoragePaths → List TurnLogEntry
log_of thread_id p = unwrap_or [] (lookup thread_id p.turn_logs)

unfoldable pub append_turn_log : TurnLogEntry → Exec (Unit {0})
unfolding write_file log_of
append_turn_log entry = write_file (λ p. record p {
  turn_logs = insert entry.thread_id (log_of entry.thread_id p ++ entry ∷ []) p.turn_logs;
})

unfoldable pub read_turn_log : ThreadId → Exec (List TurnLogEntry)
unfolding read_file log_of
read_turn_log thread_id = read_file (log_of thread_id)

unfoldable pub put_checkpoint : Checkpoint → Exec (Unit {0})
unfolding write_file
put_checkpoint checkpoint =
    write_file (λ p. record p { checkpoints = insert checkpoint.id checkpoint p.checkpoints })

unfoldable pub get_checkpoint : CheckpointId → Exec (Option Checkpoint)
unfolding read_file
get_checkpoint checkpoint_id = read_file (λ p. lookup checkpoint_id p.checkpoints)

-- The snapshot on file, or the empty one.
unfoldable pub memory_of : StoragePaths → GlobalMemorySnapshot
memory_of p = unwrap_or empty_snapshot p.global_memory

unfoldable pub read_global_memory : Exec GlobalMemorySnapshot
unfolding read_file memory_of
read_global_memory = read_file memory_of

unfoldable pub write_global_memory : GlobalMemorySnapshot → Exec (Unit {0})
unfolding write_file
write_global_memory snapshot = write_file (λ p. record p { global_memory = some snapshot })

unfoldable pub put_artifact : StoredArtifact → Exec (Unit {0})
unfolding write_file
put_artifact artifact =
    write_file (λ p. record p { artifacts = insert artifact.reference.id artifact p.artifacts })

unfoldable pub get_artifact : ArtifactId → Exec (Option StoredArtifact)
unfolding read_file
get_artifact artifact_id = read_file (λ p. lookup artifact_id p.artifacts)

unfoldable pub read_node_registry : Exec NodeRegistrySnapshot
unfolding read_file
read_node_registry =
    read_file (λ p. unwrap_or (record { nodes = []; workspace_mounts = [] }) p.node_registry)

unfoldable pub write_node_registry : NodeRegistrySnapshot → Exec (Unit {0})
unfolding write_file
write_node_registry snapshot = write_file (λ p. record p { node_registry = some snapshot })

-- The snapshot on file, or the empty one.
unfoldable pub profiles_of : StoragePaths → AuthProfileSnapshot
profiles_of p = unwrap_or (record { profiles = [] }) p.auth_profiles

unfoldable pub read_auth_profiles : Exec AuthProfileSnapshot
unfolding read_file profiles_of
read_auth_profiles = read_file profiles_of

unfoldable pub write_auth_profiles : AuthProfileSnapshot → Exec (Unit {0})
unfolding write_file
write_auth_profiles snapshot = write_file (λ p. record p { auth_profiles = some snapshot })
