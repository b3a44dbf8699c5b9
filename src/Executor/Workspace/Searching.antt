-- ===== src/Executor/Workspace/Searching.antt =====
-- What a search finds.
use mathlib.Core.List.{append-nil, append_assoc}
use liz.Prelude.{
  ℕ, zero, suc, ◌+◌, ◌≤◌, ◌<◌, String, ◌≡◌, refl, ap, sym, ◌∙◌, Bool, true, false, ◌||◌, List, [],
  ◌∷◌, ◌++◌, arith, leb, if◌then◌else◌, length, length-append, length-take, take,
}
use liz.Runtime.Error.{ok}
use liz.Executor.Workspace.{Content, text, failed, lines_of}
use liz.Executor.Workspace.Folders.{
  Workspace, ensure_directory, collect_files, limit_of, WorkspaceSearchRequest,
  WorkspaceSearchMatch, holds, search_lines, search_content, search_files, search,
}

-- The lines of a file that hold the pattern, with their numbers.
unfoldable pub matching_lines :
    WorkspaceSearchRequest → String → ℕ → List String → List WorkspaceSearchMatch
matching_lines request path number [] = []
matching_lines request path number (line ∷ lines) =
    let later = matching_lines request path (number + 1) lines in
    if holds request line
    then record { path = path; line_number = number; line = line } ∷ later
    else later

unfoldable pub matching_in : WorkspaceSearchRequest → String → Content → List WorkspaceSearchMatch
unfolding matching_lines
matching_in request path (text content) = matching_lines request path 1 (lines_of content)
matching_in request path (failed message) = []

-- All matches in the files, in the order of the files and of their lines.
unfoldable pub all_matches :
    Workspace → WorkspaceSearchRequest → List String → List WorkspaceSearchMatch
unfolding matching_in
all_matches w request [] = []
all_matches w request (path ∷ files) =
    matching_in request path (w.read_to_string (w.join request.root path))
    ++ all_matches w request files

module _ {A : Type 0} where
  take-whole : (m : ℕ) (xs : List A) → length xs ≤ m → take m xs ≡ xs
  take-whole zero [] h = refl
  take-whole zero (x ∷ xs) h = ground arith
  take-whole (suc m) [] h = refl
  take-whole (suc m) (x ∷ xs) h = ap (λ ys. x ∷ ys) (take-whole m xs (omega arith))

  take-append_full : (m : ℕ) (xs ys : List A) → length xs ≡ m → take m (xs ++ ys) ≡ xs
  take-append_full zero [] ys h = refl
  take-append_full zero (x ∷ xs) ys h = ground arith
  take-append_full (suc m) [] ys h = ground arith
  take-append_full (suc m) (x ∷ xs) ys h =
      ap (λ zs. x ∷ zs) (take-append_full m xs ys (omega arith))

  take-take_append : (m : ℕ) (xs ys : List A) → take m (take m xs ++ ys) ≡ take m (xs ++ ys)
  take-take_append zero xs ys = refl
  take-take_append (suc m) [] ys = refl
  take-take_append (suc m) (x ∷ xs) ys = ap (λ zs. x ∷ zs) (take-take_append m xs ys)

module _ (request : WorkspaceSearchRequest) where
  abbrev limit : ℕ
  limit = limit_of request.max_results

  -- What the first matches are and whether that is all that fits.
  abbrev Cuts : List WorkspaceSearchMatch → List WorkspaceSearchMatch × Bool → Type 0
  Cuts all (matches, truncated) = (matches ≡ take limit all) × (truncated ≡ leb limit (length all))

  Cuts-whole :
      (matches : List WorkspaceSearchMatch)
      → length matches < limit
      → Cuts (matches ++ []) (matches, false)
  Cuts-whole matches h = rw append-nil (sym (take-whole limit matches (omega arith)), ground arith)

  Cuts-full :
      (matches rest : List WorkspaceSearchMatch)
      → length matches ≡ limit
      → Cuts (matches ++ rest) (matches, true)
  Cuts-full matches rest h =
      (sym (take-append_full limit matches rest h), ground (arith, length-append matches rest))

  search_lines-Cuts :
      (path : String) (number : ℕ) (lines : List String) (matches : List WorkspaceSearchMatch)
      → length matches < limit
      → Cuts
          (matches ++ matching_lines request path number lines)
          (search_lines request path number lines matches)
  unfolding search_lines matching_lines
  search_lines-Cuts path number [] matches h = Cuts-whole matches h
  search_lines-Cuts path number (line ∷ lines) matches h =
      let here : WorkspaceSearchMatch = record { path = path; line_number = number; line = line } in
      let later = matching_lines request path (number + 1) lines in
      ground (
        arith,
        search_lines-Cuts path (number + 1) lines matches h,
        search_lines-Cuts path (number + 1) lines (matches ++ here ∷ []),
        append_assoc matches (here ∷ []) later,
        length-append matches (here ∷ []),
        Cuts-full (matches ++ here ∷ []) later,
      )

  search_content-Cuts :
      (path : String) (content : Content) (matches : List WorkspaceSearchMatch)
      → length matches < limit
      → Cuts
          (matches ++ matching_in request path content)
          (search_content request path content matches)
  unfolding search_content matching_in
  search_content-Cuts path (text content) matches h =
      search_lines-Cuts path 1 (lines_of content) matches h
  search_content-Cuts path (failed message) matches h = Cuts-whole matches h

  Cuts-more :
      (xs ys : List WorkspaceSearchMatch) (found : List WorkspaceSearchMatch × Bool)
      → Cuts (take limit xs ++ ys) found
      → Cuts (xs ++ ys) found
  Cuts-more xs ys (matches, truncated) (e, t) = (
    e ∙ take-take_append limit xs ys,
    ground (arith, t, length-append xs ys, length-append (take limit xs) ys, length-take limit xs),
  )

  search_files-Cuts :
      (w : Workspace) (files : List String) (matches : List WorkspaceSearchMatch) (truncated : Bool)
      → length matches ≤ limit
      → truncated ≡ leb limit (length matches)
      → Cuts
          (matches ++ all_matches w request files)
          (search_files w request files (matches, truncated))
  unfolding search_files all_matches
  search_files-Cuts w [] matches truncated h t = rw append-nil (sym (take-whole limit matches h), t)
  search_files-Cuts w (path ∷ files) matches truncated h t =
      let content = w.read_to_string (w.join request.root path) in
      let here = matching_in request path content in
      let rest = all_matches w request files in
      let found = search_content request path content matches in
      ground (
        arith,
        Cuts-full matches (here ++ rest),
        search_content-Cuts path content matches,
        search_files-Cuts w files found.0 (truncated || found.1),
        length-take limit (matches ++ here),
        append_assoc matches here rest,
        Cuts-more (matches ++ here) rest
            (search_files w request files (found.0, truncated || found.1)),
      )

-- A search of a root that is a folder, whose files can be collected, answers the matches of all files
-- that can be read, in the order of the files and of their lines, up to the limit; and for a limit
-- that is not zero, it says that they were cut just when there are as many matches as the limit, or
-- more.
pub search_lem :
    (w : Workspace) (request : WorkspaceSearchRequest) (files : List String)
    → ensure_directory w request.root ≡ ok tt
    → collect_files w request.include_hidden request.root "" (w.folder request.root) ≡ ok files
    → 1 ≤ limit_of request.max_results
    → let all = all_matches w request files in
      search w request
      ≡ ok (record {
        root = request.root;
        pattern = request.pattern;
        matches = take (limit_of request.max_results) all;
        truncated = leb (limit_of request.max_results) (length all);
      })
unfolding search
search_lem w request files d c h = ground (arith, d, c, search_files-Cuts request w files [] false)
