-- ===== src/Executor/WorkspaceExamples.antt =====
-- Runs of the search, the write and the patch on a small workspace.
use Prim.Native.String.{◌++◌}
use liz.Prelude.{
  if◌then◌else◌, refl, ◌-◌, ◌≤◌, String, ◌≡◌, ◌≢◌, refl, true, false, not, none, some, List, [],
  ◌∷◌, ◌==◌, arith, leb, length, take, All,
}
use liz.Text.{is_empty, join, starts_with}
use liz.Text.Split.{byte_length}
use liz.Text.Pieces.{split_text, count_matches, replace_all, Lacks}
use liz.Runtime.Error.{ok, err, is_ok}
use liz.Executor.Workspace.{Disk, text, ensure_file}
use liz.Executor.Workspace.Folders.{
  Workspace, Folder, Node, Children, ensure_directory, collect_files, is_hidden, to_slashes,
  path_below, WorkspaceSearchRequest, list, search,
}
use liz.Executor.Workspace.Searching.{all_matches, search_lem}
use liz.Executor.Workspace.Edits.{
  Drive, WorkspaceWriteTextRequest, parent_refused, write_text, WorkspaceApplyPatchRequest,
  target_not_found, apply_patch,
}
use liz.Executor.Workspace.Patching.{
  KeepsFiles, all_paths, all_but, write_text_lem, apply_patch_lem,
}

-- A folder with a hidden file, a file and a folder with another.
abbrev notes : Folder
notes = Folder.readable (
    Children.child ".hidden" Node.file (
      Children.child "a" Node.file (
        Children.child "b"
          (Node.directory (Folder.readable (Children.child "c" Node.file Children.end)))
          Children.end)))

abbrev workspace : Workspace
workspace = record {
  exists = λ path. true;
  is_dir = λ path. true;
  folder = λ path. notes;
  read_to_string = λ path. text "one\ntwo\n";
  join = λ dir name. dir ++ ("/" ++ name);
}

abbrev for_o : WorkspaceSearchRequest
for_o = record {
  root = "/notes";
  pattern = "o";
  case_sensitive = true;
  include_hidden = false;
  max_results = some 3;
}

abbrev visible : List String
visible = "a" ∷ "b/c" ∷ []

search_lem_example :
    search workspace for_o
    ≡ ok (record {
      root = "/notes";
      pattern = "o";
      matches = take 3 (all_matches workspace for_o visible);
      truncated = leb 3 (length (all_matches workspace for_o visible));
    })
unfolding ensure_directory collect_files is_hidden to_slashes path_below
search_lem_example = search_lem workspace for_o visible refl refl (omega arith)

-- A limit of one entry cuts the list, which goes into folders.
list_one :
    list workspace
      (record { root = "/notes"; recursive = true; include_hidden = false; max_entries = some 1 })
    ≡ ok (record {
      root = "/notes";
      entries = record { path = "a"; is_dir = false } ∷ [];
      truncated = true;
    })
unfolding list is_hidden to_slashes path_below
list_one = refl

abbrev drive : Drive
drive = record {
  disk = record {
    exists = λ path. true;
    is_file = λ path. true;
    read_to_string = λ path. text "one two one";
  };
  parent = λ path. some "/notes";
  create_dir_all = λ path. none;
  with_folders = λ folder disk. record disk {
    exists = λ path. if path == folder then true else disk.exists path;
  };
  write_refused = λ path. none;
  after_refused = λ path disk. record disk {
    read_to_string = λ p. if p == path then text "" else disk.read_to_string p;
  };
}

drive-KeepsFiles :
    (folder : String) → KeepsFiles all_paths drive.disk (drive.with_folders folder drive.disk)
drive-KeepsFiles folder p o f = (f, refl)

after_refused-KeepsFiles :
    (disk : Disk) (path : String) → KeepsFiles (all_but path) disk (drive.after_refused path disk)
after_refused-KeepsFiles disk path p o f = (f, ground arith)

abbrev hello : WorkspaceWriteTextRequest
hello = record { path = "/notes/a"; content = "hello" }

write_text_lem_example :
    let (result, after) = write_text hello drive in
    (is_ok result ≡ true
      → (after.disk.read_to_string "/notes/a" ≡ text "hello")
        × (after.disk.is_file "/notes/a" ≡ true)
        × (result
            ≡ ok (record {
              result = record { path = "/notes/a"; changed = true; byte_length = 5 };
              before = "one two one";
              after = "hello";
            })))
    × KeepsFiles (all_but "/notes/a") drive.disk after.disk
    × ((message : String)
        → parent_refused drive "/notes/a" ≡ some message
        → (is_ok result ≡ false) × KeepsFiles all_paths drive.disk after.disk)
    × (parent_refused drive "/notes/a" ≡ none
        → drive.write_refused "/notes/a" ≡ none
        → is_ok result ≡ true)
unfolding byte_length
write_text_lem_example = write_text_lem hello drive drive-KeepsFiles after_refused-KeepsFiles

abbrev ones : WorkspaceApplyPatchRequest
ones = record { path = "/notes/a"; search = "one"; replace = "1"; replace_all = true }

apply_patch_lem_example :
    let (result, after) = apply_patch ones drive in
    let pieces = split_text "one" "one two one" in
    let new = join "1" pieces in
    (join "one" pieces ≡ "one two one")
    × (is_empty ones.search ≡ false → All (Lacks "one") pieces)
    × (length pieces ≡ 1 → (result ≡ err (target_not_found "/notes/a")) × (after ≡ drive))
    × (2 ≤ length pieces
        → drive.write_refused "/notes/a" ≡ none
        → (result
            ≡ ok (record {
              result = record {
                path = "/notes/a";
                replacements = length pieces - 1;
                changed = not ("one two one" == new);
              };
              before = "one two one";
              after = new;
            }))
          × (after.disk.read_to_string "/notes/a" ≡ text new)
          × ((p : String)
              → p ≢ "/notes/a"
              → after.disk.read_to_string p ≡ drive.disk.read_to_string p))
unfolding ensure_file
apply_patch_lem_example = apply_patch_lem ones drive "one two one" refl refl

empty_needle : replace_all "" "-" "ab" ≡ "-a-b-"
unfolding replace_all starts_with
empty_needle = refl

two_ones : count_matches "one" "one two one" ≡ 2
unfolding count_matches starts_with
two_ones = refl
