-- ===== src/Executor/Workspace/Patching.antt =====
-- What writing and patching leave in the files.
use liz.Prelude.{
  refl, Bool, some, Option, ◌-◌, ◌≤◌, String, ◌≡◌, ◌≢◌, true, false, not, none, ◌==◌, arith, eq_iff,
  eq_refl, if◌then◌else◌, length, All,
}
use liz.Text.{is_empty, join}
use liz.Text.Split.{byte_length}
use liz.Text.Pieces.{
  split_text, count_matches, replace_all, replace_first, join_first, join-split_text, Lacks,
  split_text-Lacks,
}
use liz.Runtime.Error.{ok, err, is_ok}
use liz.Executor.Workspace.{Disk, text, ensure_file}
use liz.Executor.Workspace.Edits.{
  Drive, put_text, WorkspaceWriteTextRequest, text_or_empty, parent_refused, made_parent,
  write_text, WorkspaceApplyPatchRequest, target_not_found, patched, patch_text, apply_patch,
}

-- Every file of the first disk other than the one of the path is a file of the second, with the text
-- it had.
abbrev pub KeepsFiles : (String → Bool) → Disk → Disk → Type 0
KeepsFiles others old new =
    (p : String)
    → others p ≡ true
    → old.is_file p ≡ true
    → (new.is_file p ≡ true) × (new.read_to_string p ≡ old.read_to_string p)

abbrev pub all_paths : String → Bool
all_paths p = true

abbrev pub all_but : String → String → Bool
all_but path p = not (p == path)

made_parent-KeepsFiles :
    (path : String) (drive : Drive)
    → ((folder : String) → KeepsFiles all_paths drive.disk (drive.with_folders folder drive.disk))
    → KeepsFiles all_paths drive.disk (made_parent path drive).disk
made_parent-KeepsFiles path drive h p o f = go (drive.parent path)
  where
    go :
        (folder : Option String)
        → let made : Drive = elim folder [
          | none ↦ drive
          | some name ↦ record drive { disk = drive.with_folders name drive.disk }
        ] in
          (made.disk.is_file p ≡ true) × (made.disk.read_to_string p ≡ drive.disk.read_to_string p)
    go none = (f, refl)
    go (some folder) = h folder p refl f

-- Where making folders keeps every file and a write that fails keeps every file but the one written, a
-- write that succeeds leaves the text under its path and says that it changed something just when the
-- text differs from what was read there, which is the empty text where nothing could be read; it gives
-- the length of the text in bytes. Whether it succeeds or fails, every other file keeps its text, and
-- where the folders are refused, the file of the path does too. It fails only where the folders or the
-- file are refused.
pub write_text_lem :
    (request : WorkspaceWriteTextRequest) (drive : Drive)
    → ((folder : String) → KeepsFiles all_paths drive.disk (drive.with_folders folder drive.disk))
    → ((disk : Disk) (path : String)
        → KeepsFiles (all_but path) disk (drive.after_refused path disk))
    → let (result, after) = write_text request drive in
      let before = text_or_empty (drive.disk.read_to_string request.path) in
      (is_ok result ≡ true
        → (after.disk.read_to_string request.path ≡ text request.content)
          × (after.disk.is_file request.path ≡ true)
          × (result
              ≡ ok (record {
                result = record {
                  path = request.path;
                  changed = not (before == request.content);
                  byte_length = byte_length request.content;
                };
                before = before;
                after = request.content;
              })))
      × KeepsFiles (all_but request.path) drive.disk after.disk
      × ((message : String)
          → parent_refused drive request.path ≡ some message
          → (is_ok result ≡ false) × KeepsFiles all_paths drive.disk after.disk)
      × (parent_refused drive request.path ≡ none
          → drive.write_refused request.path ≡ none
          → is_ok result ≡ true)
unfolding write_text put_text
write_text_lem request drive h k =
    let made = made_parent-KeepsFiles request.path drive h in
    (
      grind (arith, eq_refl request.path),
      λ p o f.
          grind (arith, o, made p refl f, k (made_parent request.path drive).disk request.path p o),
      λ message r. (ground (arith, r), λ p o f. ground (arith, r, made p refl f)),
      ground arith,
    )

-- A patch of a file that is there and can be read looks at the pieces of its text around the text
-- that is searched: these give the text with what is searched between each two of them, and none
-- holds it unless it is empty. With one piece the patch is refused and nothing changes. Where the
-- file can be written and there are more, the path holds the pieces with the replacement between
-- them, between the first two alone if not all are to be replaced, and the other paths are as they
-- were; the answer counts the replacements and says whether the text has changed.
pub apply_patch_lem :
    (request : WorkspaceApplyPatchRequest) (drive : Drive) (before : String)
    → ensure_file drive.disk request.path ≡ ok tt
    → drive.disk.read_to_string request.path ≡ text before
    → let (result, after) = apply_patch request drive in
      let pieces = split_text request.search before in
      let new =
        if request.replace_all
        then join request.replace pieces
        else join_first request.search request.replace pieces in
      (join request.search pieces ≡ before)
      × (is_empty request.search ≡ false → All (Lacks request.search) pieces)
      × (length pieces ≡ 1 → (result ≡ err (target_not_found request.path)) × (after ≡ drive))
      × (2 ≤ length pieces
          → drive.write_refused request.path ≡ none
          → (result
              ≡ ok (record {
                result = record {
                  path = request.path;
                  replacements = if request.replace_all then length pieces - 1 else 1;
                  changed = not (before == new);
                };
                before = before;
                after = new;
              }))
            × (after.disk.read_to_string request.path ≡ text new)
            × ((p : String)
                → p ≢ request.path
                → after.disk.read_to_string p ≡ drive.disk.read_to_string p))
unfolding apply_patch patch_text patched put_text count_matches replace_all replace_first
apply_patch_lem request drive before f t = (
  (join-split_text request.search before).0,
  split_text-Lacks request.search before,
  ground (arith, f, t),
  ground (arith, f, t, eq_refl request.path, λ (p : String). eq_iff p request.path),
)
