-- ===== src/Executor/Workspace/Edits.antt =====
-- Writing and patching a file in executor/workspace.rs.
use liz.Prelude.{ℕ, String, Bool, true, not, Option, none, some, [], ◌∷◌, ◌==◌, if◌then◌else◌, eqb}
use liz.Text.{format}
use liz.Text.Split.{byte_length}
use liz.Text.Pieces.{count_matches, replace_all, replace_first}
use liz.Runtime.Error.{RuntimeError, RuntimeResult, ok, err, not_found, invalid_state}
use liz.Executor.Workspace.{Disk, Content, text, failed, ensure_file}

-- A disk that can be written, as std::fs gives it: `Path::parent`; what fs::create_dir_all says when
-- it fails, and the disk that it leaves, whether it fails or not; what fs::write says when it fails,
-- and the disk that it leaves then, since it may have cut or half written the file.
pub record Drive : Type 0 where
  pub disk : Disk
  pub parent : String → Option String
  pub create_dir_all : String → Option String
  pub with_folders : String → Disk → Disk
  pub write_refused : String → Option String
  pub after_refused : String → Disk → Disk

-- fs::write, when it succeeds.
unfoldable pub put_text : String → String → Drive → Drive
put_text path content drive = record drive {
  disk = record {
    exists = λ p. if p == path then true else drive.disk.exists p;
    is_file = λ p. if p == path then true else drive.disk.is_file p;
    read_to_string = λ p. if p == path then text content else drive.disk.read_to_string p;
  };
}

-- crates/liz-protocol/src/tool.rs, with the executions of executor/workspace.rs.
pub record WorkspaceWriteTextRequest : Type 0 where
  pub path : String
  pub content : String

pub record WorkspaceWriteTextResult : Type 0 where
  pub path : String
  pub changed : Bool
  pub byte_length : ℕ

pub record WorkspaceWriteExecution : Type 0 where
  pub result : WorkspaceWriteTextResult
  pub before : String
  pub after : String

pub record WorkspaceApplyPatchRequest : Type 0 where
  pub path : String
  pub search : String
  pub replace : String
  pub replace_all : Bool

pub record WorkspaceApplyPatchResult : Type 0 where
  pub path : String
  pub replacements : ℕ
  pub changed : Bool

pub record WorkspacePatchExecution : Type 0 where
  pub result : WorkspaceApplyPatchResult
  pub before : String
  pub after : String

abbrev pub failure : String → String → String → String → RuntimeError
failure code what path message = invalid_state code (format (what ∷ path ∷ ": " ∷ message ∷ []))

-- `read_to_string(…).unwrap_or_default()`.
abbrev pub text_or_empty : Content → String
text_or_empty (text content) = content
text_or_empty (failed message) = ""

abbrev pub parent_refused : Drive → String → Option String
parent_refused drive path = elim (drive.parent path) [
  | none ↦ none
  | some folder ↦ drive.create_dir_all folder
]

abbrev pub written : WorkspaceWriteTextRequest → String → WorkspaceWriteExecution
written request before = record {
  result = record {
    path = request.path;
    changed = not (before == request.content);
    byte_length = byte_length request.content;
  };
  before = before;
  after = request.content;
}

-- The drive after the folders above the path were made, or as far as they were.
abbrev pub made_parent : String → Drive → Drive
made_parent path drive = elim (drive.parent path) [
  | none ↦ drive
  | some folder ↦ record drive { disk = drive.with_folders folder drive.disk }
]

-- The drive after a write of the path that failed.
abbrev pub spoiled : String → Drive → Drive
spoiled path drive = record drive { disk = drive.after_refused path drive.disk }

unfoldable pub write_text :
    WorkspaceWriteTextRequest → Drive → RuntimeResult WorkspaceWriteExecution × Drive
unfolding byte_length put_text
write_text request drive =
    let before = text_or_empty (drive.disk.read_to_string request.path) in
    let made = made_parent request.path drive in
    elim (parent_refused drive request.path) [
      | some message ↦ (
        err (
            failure "workspace_write_parent_failed" "failed to create parent directories for "
              request.path message),
        made,
      )
      | none ↦ elim (drive.write_refused request.path) [
        | some message ↦ (
          err (failure "workspace_write_failed" "failed to write " request.path message),
          spoiled request.path made,
        )
        | none ↦ (ok (written request before), put_text request.path request.content made)
      ]
    ]

abbrev pub target_not_found : String → RuntimeError
target_not_found path =
    not_found "workspace_patch_search_not_found"
      (format ("patch target was not found in " ∷ path ∷ []))

-- The text after the patch.
unfoldable pub patched : WorkspaceApplyPatchRequest → String → String
unfolding replace_all replace_first
patched request before =
    if request.replace_all
    then replace_all request.search request.replace before
    else replace_first request.search request.replace before

abbrev pub patch_execution : WorkspaceApplyPatchRequest → String → WorkspacePatchExecution
patch_execution request before = record {
  result = record {
    path = request.path;
    replacements = if request.replace_all then count_matches request.search before else 1;
    changed = not (before == patched request before);
  };
  before = before;
  after = patched request before;
}

unfoldable pub patch_text :
    WorkspaceApplyPatchRequest → String → Drive → RuntimeResult WorkspacePatchExecution × Drive
unfolding patched put_text
patch_text request before drive =
    if eqb (count_matches request.search before) 0
    then (err (target_not_found request.path), drive)
    else elim (drive.write_refused request.path) [
      | some message ↦ (
        err (failure "workspace_patch_write_failed" "failed to write " request.path message),
        spoiled request.path drive,
      )
      | none ↦ (
        ok (patch_execution request before),
        put_text request.path (patched request before) drive,
      )
    ]

abbrev pub patch_content :
    WorkspaceApplyPatchRequest → Content → Drive → RuntimeResult WorkspacePatchExecution × Drive
patch_content request (text before) drive = patch_text request before drive
patch_content request (failed message) drive =
    (err (failure "workspace_patch_read_failed" "failed to read " request.path message), drive)

abbrev pub if_file :
    RuntimeResult (Unit {0})
    → RuntimeResult WorkspacePatchExecution × Drive
    → Drive
    → RuntimeResult WorkspacePatchExecution × Drive
if_file (ok _) next drive = next
if_file (err e) next drive = (err e, drive)

unfoldable pub apply_patch :
    WorkspaceApplyPatchRequest → Drive → RuntimeResult WorkspacePatchExecution × Drive
unfolding patch_text ensure_file
apply_patch request drive =
    if_file (ensure_file drive.disk request.path)
      (patch_content request (drive.disk.read_to_string request.path) drive) drive
