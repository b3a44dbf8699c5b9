-- ===== src/Runtime/Memory/History.antt =====
-- What a compilation keeps: the facts of the global memory are only added to and invalidated.
use Prim.Native.Char.{Char}
use liz.Prelude.{
  ◌+◌, String, ◌≡◌, refl, Bool, true, false, List, [], ◌∷◌, arith, inl, inr, if◌then◌else◌, ◌⊎◌,
}
use liz.Protocol.Ids.{Timestamp}
use liz.Protocol.Thread.{Thread}
use liz.Storage.{StoragePaths, GlobalMemorySnapshot}
use liz.Runtime.Error.{RuntimeResult, storage, ok, err, is_ok}
use liz.Runtime.State.{RuntimeCoordinator}
use liz.Runtime.Exec.{proceed, ◌>>=◌}
use liz.Runtime.Ids.{now_timestamp, timestamp}
use liz.Runtime.Stores.{memory_of, read_file, write_file, read_global_memory, write_global_memory}
use liz.Runtime.Memory.{Ledger}
use liz.Runtime.Memory.Facts.{HasOneLive}
use liz.Runtime.Memory.Compile.{MemoryCompilationInput, MemoryCompilationDelta}
use liz.Runtime.Memory.Apply.{
  Basis, goal_specs, identity_specs, durable_specs, procedure_specs, invalidate_subjects,
  invalidate_candidate_subjects, sync_commitment_facts, change_facts, basis_of, ledger_on,
  snapshot_with, with_delta, write_changes, apply_to, MemoryCompilationSummary,
  apply_compilation_delta,
}
use liz.Runtime.Memory.OneLive.{
  Keeps, Keeps-refl, IsSound, Sound, Sound-then, Sound-pure, Sound-upsert_facts,
  Sound-invalidate_all,
}

Sound-invalidate_subjects :
    (subjects : List String) (now : Timestamp) → Sound (invalidate_subjects subjects now)
unfolding invalidate_subjects
Sound-invalidate_subjects [] now = Sound-pure
Sound-invalidate_subjects (subject ∷ rest) now = Sound-invalidate_all _ now

Sound-invalidate_candidate_subjects :
    (subjects : List String) (now : Timestamp) → Sound (invalidate_candidate_subjects subjects now)
unfolding invalidate_candidate_subjects
Sound-invalidate_candidate_subjects subjects now = Sound-invalidate_subjects _ now

-- What is on file after a compilation, from what was before it.
abbrev KeepsMemory :
    StoragePaths → RuntimeResult MemoryCompilationSummary × RuntimeCoordinator → Type 0
KeepsMemory paths (result, after) =
    let old = memory_of paths in
    let new = memory_of after.stores.paths in
    Keeps old.facts new.facts
    × (HasOneLive old.facts → HasOneLive new.facts)
    × (new.relationships ≡ old.relationships)
    × (is_ok result ≡ false → after.stores.paths ≡ paths)

KeepsMemory-same :
    (paths : StoragePaths) (r : RuntimeResult MemoryCompilationSummary × RuntimeCoordinator)
    → r.1.stores.paths ≡ paths
    → KeepsMemory paths r
KeepsMemory-same paths r h =
    (ground (arith, Keeps-refl (memory_of paths).facts), λ p j. ground (arith, p j), cc, λ e. h)

module _ (input : MemoryCompilationInput) (delta : MemoryCompilationDelta) (now : Timestamp)
    (snapshot : GlobalMemorySnapshot) where
  write_changes_lem :
      (changed : Ledger) (s : RuntimeCoordinator)
      → let (result, after) = write_changes input delta now snapshot changed s in
        ((is_ok result ≡ true)
          × (memory_of after.stores.paths ≡ snapshot_with input delta now changed snapshot))
        ⊎ (after.stores.paths ≡ s.stores.paths)
  unfolding write_changes ◌>>=◌ write_global_memory write_file memory_of
  write_changes_lem changed s = ground arith

  facts-snapshot_with :
      (changed : Ledger)
      → ((snapshot_with input delta now changed snapshot).facts ≡ changed.facts)
        × ((snapshot_with input delta now changed snapshot).relationships ≡ snapshot.relationships)
  unfolding snapshot_with with_delta
  facts-snapshot_with changed = (refl, refl)

KeepsMemory-write_changes :
    (input : MemoryCompilationInput) (delta : MemoryCompilationDelta) (now : Timestamp)
    (paths : StoragePaths) (s : RuntimeCoordinator) (r : RuntimeResult Ledger × RuntimeCoordinator)
    → s.stores.paths ≡ paths
    → IsSound (ledger_on (memory_of paths)) s r
    → KeepsMemory paths (proceed r (write_changes input delta now (memory_of paths)))
KeepsMemory-write_changes input delta now paths s (err e, s') h sound = ground arith
KeepsMemory-write_changes input delta now paths s (ok changed, s') h sound =
    elim (write_changes_lem input delta now (memory_of paths) changed s') [
      | inl done ↦
          let r = write_changes input delta now (memory_of paths) changed s' in
          let same = facts-snapshot_with input delta now (memory_of paths) changed in
          (
            ground (arith, done.1, same.0, sound.2),
            λ p j. ground (arith, done.1, same.0, sound.3 j, p j),
            ground (arith, done.1, same.1),
            λ e. ground (arith, done.0, e),
          )
      | inr same ↦
          KeepsMemory-same paths (write_changes input delta now (memory_of paths) changed s') cc
    ]

-- The state after one more call of a store.
abbrev called : RuntimeCoordinator → RuntimeCoordinator
called s = record s { stores = record (s.stores) { calls = s.stores.calls + 1 } }

module _ (is_alphanumeric : Char → Bool) where
  Sound-sync_commitment_facts :
      (basis : Basis) (commitments : List String)
      → Sound (sync_commitment_facts is_alphanumeric basis commitments)
  unfolding sync_commitment_facts
  Sound-sync_commitment_facts basis commitments =
      Sound-then (Sound-invalidate_all _ basis.now) (Sound-upsert_facts _)

  Sound-change_facts :
      (basis : Basis) (thread : Thread) (delta : MemoryCompilationDelta)
      → Sound (change_facts is_alphanumeric basis thread delta)
  unfolding change_facts
  Sound-change_facts basis thread delta =
      Sound-then (Sound-upsert_facts (goal_specs basis thread)) (
        Sound-then (Sound-sync_commitment_facts basis delta.commitments) (
          Sound-then (Sound-upsert_facts (identity_specs basis delta.identity_summary_update)) (
            Sound-then (Sound-upsert_facts (durable_specs basis delta.durable_facts)) (
              Sound-then
                (Sound-invalidate_candidate_subjects delta.invalidation_candidates basis.now)
                (Sound-upsert_facts
                  (procedure_specs is_alphanumeric basis delta.candidate_procedures))))))

  KeepsMemory-apply_to :
      (input : MemoryCompilationInput) (delta : MemoryCompilationDelta) (s : RuntimeCoordinator)
      → KeepsMemory s.stores.paths
          (apply_to is_alphanumeric input delta (memory_of s.stores.paths) s)
  unfolding apply_to ◌>>=◌ now_timestamp
  KeepsMemory-apply_to input delta s =
      let now = timestamp (s.ids.clock s.ids.readings) in
      let clocked = (now_timestamp s).1 in
      KeepsMemory-write_changes input delta now s.stores.paths clocked _ refl
        ((Sound-change_facts (basis_of input delta now) input.thread delta).holds _ clocked)

  -- Applying the changes of a compilation never takes a fact out of the global memory and changes in none
  -- what it says: the facts on file afterwards begin with those on file before, each with the same id,
  -- kind, subject and value, and one that was invalidated before is not touched at all. Where no subject
  -- had two live facts, none has afterwards. The relationships stay the same, and an error leaves
  -- everything on file as it was, where a write of the store that fails changes nothing.
  pub apply_compilation_delta_lem :
      (input : MemoryCompilationInput) (delta : MemoryCompilationDelta) (s : RuntimeCoordinator)
      → let (result, after) = apply_compilation_delta is_alphanumeric input delta s in
        let old = memory_of s.stores.paths in
        let new = memory_of after.stores.paths in
        Keeps old.facts new.facts
        × (HasOneLive old.facts → HasOneLive new.facts)
        × (new.relationships ≡ old.relationships)
        × (is_ok result ≡ false → after.stores.paths ≡ s.stores.paths)
  unfolding apply_compilation_delta ◌>>=◌ read_global_memory read_file
  apply_compilation_delta_lem input delta s =
      let next = called s in
      elim (s.stores.faulty s.stores.calls)
        as (λ b. KeepsMemory s.stores.paths (
          proceed (if b then (err storage, next) else (ok (memory_of s.stores.paths), next))
            (apply_to is_alphanumeric input delta))) [
              | true ↦ KeepsMemory-same s.stores.paths (err storage, next) refl
              | false ↦ KeepsMemory-apply_to input delta next
            ]
