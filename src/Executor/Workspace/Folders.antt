-- ===== src/Executor/Workspace/Folders.antt =====
-- Listing and searching a folder in executor/workspace.rs.
use Prim.Native.Char.{code}
use Prim.Native.String.{[], ◌∷◌}
use mathlib.Core.List.{◌++◌}
use liz.Prelude.{
  ℕ, ◌+◌, ◌-◌, ◌^◌, String, Bool, true, false, not, ◌&&◌, ◌||◌, Option, List, eqb, leb,
  if◌then◌else◌, unwrap_or, length,
}
use liz.Text.{format, starts_with, contains, to_ascii_lowercase}
use liz.Runtime.Error.{RuntimeError, RuntimeResult, ok, err, not_found, invalid_state}
use liz.Executor.Workspace.{Content, text, failed, lines_of}

-- What the file system holds under a path: a file, a folder, or a thing that it does not tell of. The
-- names in a folder stand in the order in which `paths.sort()` leaves them.
mutual
  pub data Node : Type 0 where
    file : Node
    directory : Folder → Node
    broken : (message : String) → Node

  pub data Folder : Type 0 where
    readable : Children → Folder
    unreadable : (message : String) → Folder

  pub data Children : Type 0 where
    end : Children
    child : (name : String) → Node → Children → Children

-- The workspace under a root: whether the root is there and a folder, what it holds, the text of a
-- path, and `Path::join`.
pub record Workspace : Type 0 where
  pub exists : String → Bool
  pub is_dir : String → Bool
  pub folder : String → Folder
  pub read_to_string : String → Content
  pub join : String → String → String

unfoldable pub ensure_directory : Workspace → String → RuntimeResult (Unit {0})
ensure_directory w root =
    if not (w.exists root)
    then err (
        not_found "workspace_root_not_found" (
          format (List.◌∷◌ "workspace root " (List.◌∷◌ root (List.◌∷◌ " does not exist" List.[])))))
    else if not (w.is_dir root)
    then err (
        invalid_state "workspace_root_not_directory" (
          format
            (List.◌∷◌ "workspace root " (List.◌∷◌ root (List.◌∷◌ " is not a directory" List.[])))))
    else ok tt

-- `replace('\\', "/")`.
unfoldable pub to_slashes : String → String
to_slashes [] = []
to_slashes (c ∷ s) =
    let rest = to_slashes s in
    if eqb (code c) 92 then format (List.◌∷◌ "/" (List.◌∷◌ rest List.[])) else c ∷ rest

-- The path of a child below a folder that lies at `below` under the root.
unfoldable pub path_below : String → String → String
path_below [] name = name
path_below (c ∷ below) name = format (List.◌∷◌ (c ∷ below) (List.◌∷◌ "/" (List.◌∷◌ name List.[])))

unfoldable pub is_hidden : String → Bool
unfolding starts_with
is_hidden name = starts_with "." name

abbrev pub list_failed : String → String → String → RuntimeError
list_failed what path message =
    invalid_state "workspace_list_failed"
      (format (List.◌∷◌ what (List.◌∷◌ path (List.◌∷◌ ": " (List.◌∷◌ message List.[])))))

abbrev pub search_failed : String → String → String → RuntimeError
search_failed what path message =
    invalid_state "workspace_search_failed"
      (format (List.◌∷◌ what (List.◌∷◌ path (List.◌∷◌ ": " (List.◌∷◌ message List.[])))))

-- crates/liz-protocol/src/tool.rs.
pub record WorkspaceListEntry : Type 0 where
  pub path : String
  pub is_dir : Bool

pub record WorkspaceListRequest : Type 0 where
  pub root : String
  pub recursive : Bool
  pub include_hidden : Bool
  pub max_entries : Option ℕ

pub record WorkspaceListResult : Type 0 where
  pub root : String
  pub entries : List WorkspaceListEntry
  pub truncated : Bool

-- A limit of a request; usize has 64 bits.
abbrev pub limit_of : Option ℕ → ℕ
limit_of limit = unwrap_or (2 ^ 64 - 1) limit

-- The entries so far and whether the limit cut them.
abbrev pub Listing : Type 0
Listing = List WorkspaceListEntry × Bool

abbrev pub then_unless_cut :
    RuntimeResult Listing → (Listing → RuntimeResult Listing) → RuntimeResult Listing
then_unless_cut (ok (entries, false)) next = next (entries, false)
then_unless_cut (ok (entries, true)) next = ok (entries, true)
then_unless_cut (err e) next = err e

abbrev pub push : WorkspaceListEntry → Listing → Listing
push entry (entries, cut) = (entries ++ List.◌∷◌ entry List.[], cut)

-- The loop of `collect_entries`, with the path shown in errors and the one below the root.
module _ (w : Workspace) (recursive include_hidden : Bool) (max_entries : ℕ) where
  unfoldable mutual
    pub collect_entries : String → String → Folder → Listing → RuntimeResult Listing
    collect_entries shown below (readable children) so_far =
        collect_children shown below children so_far
    collect_entries shown below (unreadable message) so_far =
        err (list_failed "failed to enumerate " shown message)

    pub collect_children : String → String → Children → Listing → RuntimeResult Listing
    collect_children shown below end so_far = ok so_far
    collect_children shown below (child name node children) so_far =
        let inside = collect_node (w.join shown name) (path_below below name) node so_far in
        let skipped = collect_children shown below children so_far in
        if leb max_entries (length so_far.0)
        then ok (so_far.0, true)
        else if not include_hidden && is_hidden name
        then skipped
        else then_unless_cut inside (λ more. collect_children shown below children more)

    pub collect_node : String → String → Node → Listing → RuntimeResult Listing
    collect_node shown below (broken message) so_far =
        err (list_failed "failed to stat " shown message)
    collect_node shown below file so_far =
        ok (push (record { path = to_slashes below; is_dir = false }) so_far)
    collect_node shown below (directory folder) so_far =
        let listed = push (record { path = to_slashes below; is_dir = true }) so_far in
        let inside = collect_entries shown below folder listed in
        if recursive then inside else ok listed

abbrev pub list_result :
    WorkspaceListRequest → RuntimeResult Listing → RuntimeResult WorkspaceListResult
list_result request (ok (entries, truncated)) =
    ok (record { root = request.root; entries = entries; truncated = truncated })
list_result request (err e) = err e

abbrev pub after_check : {A : Type 0} → RuntimeResult (Unit {0}) → RuntimeResult A → RuntimeResult A
after_check (ok _) next = next
after_check (err e) next = err e

unfoldable pub list : Workspace → WorkspaceListRequest → RuntimeResult WorkspaceListResult
unfolding collect_entries ensure_directory
list w request = after_check (ensure_directory w request.root) (
    list_result request (
      collect_entries w request.recursive request.include_hidden (limit_of request.max_entries)
        request.root "" (w.folder request.root) (List.[], false)))

-- The files of `collect_files`, which are all found before the search of them begins.
abbrev pub both :
    RuntimeResult (List String) → RuntimeResult (List String) → RuntimeResult (List String)
both (ok files) (ok more) = ok (files ++ more)
both (ok files) (err e) = err e
both (err e) next = err e

module _ (w : Workspace) (include_hidden : Bool) where
  unfoldable mutual
    pub collect_files : String → String → Folder → RuntimeResult (List String)
    collect_files shown below (readable children) = collect_children_files shown below children
    collect_files shown below (unreadable message) =
        err (search_failed "failed to enumerate " shown message)

    pub collect_children_files : String → String → Children → RuntimeResult (List String)
    collect_children_files shown below end = ok List.[]
    collect_children_files shown below (child name node children) =
        let later = collect_children_files shown below children in
        let here = collect_node_files (w.join shown name) (path_below below name) node in
        if not include_hidden && is_hidden name then later else both here later

    pub collect_node_files : String → String → Node → RuntimeResult (List String)
    collect_node_files shown below (broken message) =
        err (search_failed "failed to stat " shown message)
    collect_node_files shown below file = ok (List.◌∷◌ (to_slashes below) List.[])
    collect_node_files shown below (directory folder) = collect_files shown below folder

pub record WorkspaceSearchRequest : Type 0 where
  pub root : String
  pub pattern : String
  pub case_sensitive : Bool
  pub include_hidden : Bool
  pub max_results : Option ℕ

pub record WorkspaceSearchMatch : Type 0 where
  pub path : String
  pub line_number : ℕ
  pub line : String

pub record WorkspaceSearchResult : Type 0 where
  pub root : String
  pub pattern : String
  pub matches : List WorkspaceSearchMatch
  pub truncated : Bool

-- Whether a line holds the pattern, in its own letters or in lower case.
unfoldable pub holds : WorkspaceSearchRequest → String → Bool
unfolding contains to_ascii_lowercase
holds request line =
    if request.case_sensitive
    then contains line request.pattern
    else contains (to_ascii_lowercase line) (to_ascii_lowercase request.pattern)

-- The matches so far and whether the limit cut them.
abbrev pub Found : Type 0
Found = List WorkspaceSearchMatch × Bool

-- The loop over the lines of a file, from the line numbered `number`.
unfoldable pub search_lines :
    WorkspaceSearchRequest → String → ℕ → List String → List WorkspaceSearchMatch → Found
unfolding holds
search_lines request path number List.[] matches = (matches, false)
search_lines request path number (List.◌∷◌ line lines) matches =
    let more =
      matches ++ List.◌∷◌ (record { path = path; line_number = number; line = line }) List.[] in
    let hit = search_lines request path (number + 1) lines more in
    let miss = search_lines request path (number + 1) lines matches in
    if holds request line
    then (if leb (limit_of request.max_results) (length more) then (more, true) else hit)
    else miss

unfoldable pub search_content :
    WorkspaceSearchRequest → String → Content → List WorkspaceSearchMatch → Found
unfolding search_lines lines_of
search_content request path (text content) matches =
    search_lines request path 1 (lines_of content) matches
search_content request path (failed message) matches = (matches, false)

-- The loop over the files. A cut within a file ends that file alone, and the next file ends the loop.
unfoldable pub search_files : Workspace → WorkspaceSearchRequest → List String → Found → Found
unfolding search_content
search_files w request List.[] found = found
search_files w request (List.◌∷◌ path files) (matches, truncated) =
    let (more, cut) =
      search_content request path (w.read_to_string (w.join request.root path)) matches in
    let rest = search_files w request files (more, truncated || cut) in
    if leb (limit_of request.max_results) (length matches) then (matches, true) else rest

abbrev pub search_result :
    Workspace
    → WorkspaceSearchRequest
    → RuntimeResult (List String)
    → RuntimeResult WorkspaceSearchResult
search_result w request (ok files) =
    let (matches, truncated) = search_files w request files (List.[], false) in
    ok (record {
      root = request.root;
      pattern = request.pattern;
      matches = matches;
      truncated = truncated;
    })
search_result w request (err e) = err e

unfoldable pub search : Workspace → WorkspaceSearchRequest → RuntimeResult WorkspaceSearchResult
unfolding collect_files search_files ensure_directory
search w request = after_check (ensure_directory w request.root) (
    search_result w request
      (collect_files w request.include_hidden request.root "" (w.folder request.root)))
