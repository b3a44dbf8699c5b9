-- ===== src/Runtime/NodeRegistry/Mounts.antt =====
-- Workspace mounts: the choice of an id, and the table through attaching and detaching.
use text.Mathlib.TextLemmas.{append_assoc}
use liz.Prelude.{
  ap, ◌∙◌, ℕ, zero, suc, ◌+◌, ◌≤◌, ◌<◌, String, ◌≡◌, true, false, none, some, [], ◌∷◌, ◌==◌, arith,
  eq_iff, eq_refl, length, leb, if◌then◌else◌,
}
use liz.Text.Digits.{to_decimal, last_number, last_number-to_decimal, last_number-append}
use liz.Assoc.{Assoc, insert, contains_key}
use liz.Assoc.Laws.{lookup-insert, lookup-remove}
use liz.Protocol.Node.{WorkspaceMount}
use liz.Runtime.Error.{ok, err}
use liz.Runtime.State.{NodeRegistry}
use liz.Protocol.Ids.{WorkspaceMountId}
use liz.Protocol.Requests.{WorkspaceMountAttachRequest, WorkspaceMountDetachRequest}
use liz.Runtime.NodeRegistry.{
  mount_id, free_mount_id, next_workspace_mount_id, read_workspace_mount, attach_workspace_mount,
  detach_workspace_mount, find_local, resolve_or_attach_local_workspace, mount_not_found,
}

-- How many ids of the table are numbered from `index` on.
taken_from : ℕ → Assoc WorkspaceMount → ℕ
taken_from index [] = 0
taken_from index ((k, mount) ∷ m) =
    if leb index (last_number 0 k) then suc (taken_from index m) else taken_from index m

taken_from-le : (index : ℕ) (m : Assoc WorkspaceMount) → taken_from index m ≤ length m
unfolding taken_from
taken_from-le index [] = omega arith
taken_from-le index ((k, mount) ∷ m) = ground (arith, taken_from-le index m)

taken_from_mono :
    (index : ℕ) (m : Assoc WorkspaceMount) → taken_from (index + 1) m ≤ taken_from index m
unfolding taken_from
taken_from_mono index [] = omega arith
taken_from_mono index ((k, mount) ∷ m) = ground (arith, taken_from_mono index m)

last_number-mount_id : (index : ℕ) → last_number 0 (mount_id index) ≡ index
last_number-mount_id index =
    ap (last_number 0) (append_assoc "workspace" "_" (to_decimal index))
    ∙ last_number-append "workspace" (to_decimal index) 0
    ∙ last_number-to_decimal index

taken_by_candidate :
    (index : ℕ) (m : Assoc WorkspaceMount)
    → contains_key (mount_id index) m ≡ true
    → taken_from (index + 1) m < taken_from index m
unfolding taken_from contains_key
taken_by_candidate index [] h = cc
taken_by_candidate index ((k, mount) ∷ m) h = ground (
  arith,
  taken_by_candidate index m,
  taken_from_mono index m,
  last_number-mount_id index,
  eq_iff k (mount_id index),
)

free_mount_id-free :
    (fuel index : ℕ) (m : Assoc WorkspaceMount)
    → taken_from index m ≤ fuel
    → contains_key (free_mount_id fuel index m) m ≡ false
unfolding free_mount_id
free_mount_id-free zero index m h = ground (arith, taken_by_candidate index m)
free_mount_id-free (suc fuel) index m h =
    ground (arith, taken_by_candidate index m, free_mount_id-free fuel (index + 1) m)

-- The loop that picks a mount id ends on an id that the table does not hold.
pub next_workspace_mount_id-free :
    (m : Assoc WorkspaceMount) → contains_key (next_workspace_mount_id m) m ≡ false
unfolding next_workspace_mount_id
next_workspace_mount_id-free m =
    free_mount_id-free (length m) (length m + 1) m (taken_from-le (length m + 1) m)

-- If attaching a mount succeeds, the mount is read back under its id, which the table did not hold,
-- and a read of any id that the table held gives what it gave before.
pub read-attach_workspace_mount :
    (request : WorkspaceMountAttachRequest) (r : NodeRegistry) (mount : WorkspaceMount)
    (id : WorkspaceMountId)
    → (attach_workspace_mount request r).0 ≡ ok mount
    → (read_workspace_mount mount.workspace_id (attach_workspace_mount request r).1 ≡ ok mount)
      × (contains_key mount.workspace_id r.workspace_mounts ≡ false)
      × (contains_key id r.workspace_mounts ≡ true
          → read_workspace_mount id (attach_workspace_mount request r).1
            ≡ read_workspace_mount id r)
unfolding attach_workspace_mount read_workspace_mount
read-attach_workspace_mount request r mount id h = grind (
  arith,
  lookup-insert,
  next_workspace_mount_id-free,
  eq_refl,
  eq_iff (next_workspace_mount_id r.workspace_mounts) id,
)

find_local-insert :
    (root : String) (id : WorkspaceMountId) (mount : WorkspaceMount) (m : Assoc WorkspaceMount)
    → contains_key id m ≡ false
    → find_local root m ≡ none
    → mount.node_id ≡ "local"
    → mount.root_path ≡ root
    → find_local root (insert id mount m) ≡ some mount
unfolding find_local insert contains_key
find_local-insert root id mount [] c f n p =
    ground (arith, eq_iff mount.node_id "local", eq_iff mount.root_path root)
find_local-insert root id mount ((k, w) ∷ m) c f n p =
    ground (arith, eq_iff k id, find_local-insert root id mount m)

-- If resolving a path gives a mount, resolving it again gives the same mount and attaches nothing.
pub resolve_or_attach_idem :
    (root : String) (r : NodeRegistry) (mount : WorkspaceMount)
    → (resolve_or_attach_local_workspace root r).0 ≡ ok mount
    → resolve_or_attach_local_workspace root (resolve_or_attach_local_workspace root r).1
      ≡ (ok mount, (resolve_or_attach_local_workspace root r).1)
unfolding resolve_or_attach_local_workspace attach_workspace_mount
resolve_or_attach_idem root r mount h =
    grind (arith, next_workspace_mount_id-free, find_local-insert)

-- A mount that is detached is gone, every other mount stays, and an unknown id is refused with
-- nothing changed.
pub detach_workspace_mount_lem :
    (request : WorkspaceMountDetachRequest) (r : NodeRegistry) (id : WorkspaceMountId)
    → let (result, after) = detach_workspace_mount request r in
      (contains_key request.workspace_id r.workspace_mounts ≡ true
        → (result ≡ ok request.workspace_id)
          × (read_workspace_mount id after ≡ (
              if request.workspace_id == id
              then err mount_not_found
              else read_workspace_mount id r)))
      × (contains_key request.workspace_id r.workspace_mounts ≡ false
          → (result ≡ err mount_not_found) × (after ≡ r))
unfolding detach_workspace_mount read_workspace_mount
detach_workspace_mount_lem request r id = grind (arith, lookup-remove)
