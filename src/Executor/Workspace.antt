-- ===== src/Executor/Workspace.antt =====
-- Reading a file in crates/liz-app-server/src/executor/workspace.rs. What the file system says of a
-- path is a `Disk`.
pub mod Reading
pub mod Folders
pub mod Searching
pub mod Edits
pub mod Patching
use Prim.Native.Char.{Char, code}
use Prim.Native.String.{[], ◌∷◌}
use mathlib.Core.List
use liz.Prelude.{
  ℕ, ◌-◌, min, max, String, Bool, true, false, not, ◌&&◌, Option, none, some, List, eqb, leb,
  if◌then◌else◌, unwrap_or, length, take, drop,
}
use liz.Text.{format}
use liz.Runtime.Error.{RuntimeResult, ok, err, not_found, invalid_state}

-- fs::read_to_string: the text, or the message of the error.
pub data Content : Type 0 where
  text failed : String → Content

pub record Disk : Type 0 where
  pub exists : String → Bool
  pub is_file : String → Bool
  pub read_to_string : String → Content

-- crates/liz-protocol/src/tool.rs.
pub record WorkspaceReadRequest : Type 0 where
  pub path : String
  pub start_line : Option ℕ
  pub end_line : Option ℕ

pub record WorkspaceReadResult : Type 0 where
  pub path : String
  pub content : String
  pub start_line : ℕ
  pub end_line : ℕ
  pub total_lines : ℕ

unfoldable pub ensure_file : Disk → String → RuntimeResult (Unit {0})
ensure_file disk path =
    if not (disk.exists path)
    then err (
        not_found "workspace_file_not_found" (
          format (List.◌∷◌ "workspace file " (List.◌∷◌ path (List.◌∷◌ " does not exist" List.[])))))
    else if not (disk.is_file path)
    then err (
        invalid_state "workspace_path_not_file"
          (format (List.◌∷◌ "workspace path " (List.◌∷◌ path (List.◌∷◌ " is not a file" List.[])))))
    else ok tt

abbrev starts_with_newline : String → Bool
starts_with_newline [] = false
starts_with_newline (c ∷ s) = eqb (code c) 10

abbrev onto_first : Char → List String → List String
onto_first c List.[] = List.◌∷◌ (c ∷ []) List.[]
onto_first c (List.◌∷◌ line lines) = List.◌∷◌ (c ∷ line) lines

-- str::lines: a line ends at a newline, or at a carriage return and a newline.
unfoldable pub lines_of : String → List String
lines_of [] = List.[]
lines_of (c ∷ s) =
    let rest = lines_of s in
    if eqb (code c) 10
    then List.◌∷◌ [] rest
    else if eqb (code c) 13 && starts_with_newline s
    then rest
    else onto_first c rest

-- `join("\n")`.
unfoldable pub join_lines : List String → String
join_lines List.[] = []
join_lines (List.◌∷◌ line List.[]) = line
join_lines (List.◌∷◌ line (List.◌∷◌ next rest)) =
    format (List.◌∷◌ line (List.◌∷◌ "\n" (List.◌∷◌ (join_lines (List.◌∷◌ next rest)) List.[])))

-- The lines from `from` up to `to`, or nothing where Rust panics.
unfoldable pub slice : ℕ → ℕ → List String → Option (List String)
slice from to lines =
    if leb from to && leb to (length lines) then some (take (to - from) (drop from lines)) else none

abbrev pub is_nil : List String → Bool
is_nil List.[] = true
is_nil (List.◌∷◌ line lines) = false

-- The first and the last line that a request asks for.
unfoldable pub first_line : WorkspaceReadRequest → ℕ
first_line request = max (unwrap_or 1 request.start_line) 1

unfoldable pub last_line : WorkspaceReadRequest → List String → ℕ
unfolding first_line
last_line request lines =
    max (unwrap_or (max (length lines) 1) request.end_line) (first_line request)

unfoldable pub content_of : WorkspaceReadRequest → List String → Option String
unfolding slice join_lines first_line last_line
content_of request lines =
    if is_nil lines
    then some []
    else elim (slice (min (first_line request - 1) (length lines))
        (min (last_line request lines) (length lines)) lines) [
          | none ↦ none
          | some chosen ↦ some (join_lines chosen)
        ]

abbrev pub result_of : WorkspaceReadRequest → List String → String → WorkspaceReadResult
unfolding first_line last_line
result_of request lines content = record {
  path = request.path;
  content = content;
  start_line = first_line request;
  end_line = min (last_line request lines) (max (length lines) 1);
  total_lines = max (length lines) 1;
}

abbrev pub read_lines :
    WorkspaceReadRequest → List String → Option (RuntimeResult WorkspaceReadResult)
unfolding content_of
read_lines request lines = elim (content_of request lines) [
  | none ↦ none
  | some content ↦ some (ok (result_of request lines content))
]

abbrev pub read_content :
    WorkspaceReadRequest → Content → Option (RuntimeResult WorkspaceReadResult)
unfolding lines_of
read_content request (text content) = read_lines request (lines_of content)
read_content request (failed message) = some (
    err (
      invalid_state "workspace_read_failed" (
        format (
          List.◌∷◌ "failed to read "
            (List.◌∷◌ request.path (List.◌∷◌ ": " (List.◌∷◌ message List.[])))))))

-- The `?` behind a check.
abbrev pub after_check :
    RuntimeResult (Unit {0})
    → Option (RuntimeResult WorkspaceReadResult)
    → Option (RuntimeResult WorkspaceReadResult)
after_check (ok _) next = next
after_check (err e) next = some (err e)

-- `none` is a panic.
unfoldable pub read : Disk → WorkspaceReadRequest → Option (RuntimeResult WorkspaceReadResult)
unfolding ensure_file
read disk request =
    after_check (ensure_file disk request.path)
      (read_content request (disk.read_to_string request.path))
