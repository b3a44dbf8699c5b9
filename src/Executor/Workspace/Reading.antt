-- ===== src/Executor/Workspace/Reading.antt =====
-- The answers to a read of a file, executor/workspace.rs.
use liz.Prelude.{
  unwrap_or, ℕ, zero, suc, ◌+◌, ◌-◌, ◌≤◌, ◌<◌, min, max, String, ◌≡◌, refl, ap, sym, ◌∙◌,
  length-drop, true, some, List, [], ◌∷◌, ◌&&◌, arith, leb, if◌then◌else◌, length, take, drop,
}
use liz.Runtime.Error.{ok}
use liz.Executor.Workspace.{
  Disk, text, WorkspaceReadRequest, ensure_file, lines_of, join_lines, slice, first_line, last_line,
  content_of, result_of, read_lines, read_content, after_check, read,
}

-- The lines with a number from `first` to `last`, when the first of them has number `n`.
unfoldable pub window : ℕ → ℕ → ℕ → List String → List String
window n first last [] = []
window n first last (line ∷ lines) =
    let later = window (n + 1) first last lines in
    if leb first n && leb n last then line ∷ later else later

window-past : (n first last : ℕ) (lines : List String) → last < n → window n first last lines ≡ []
unfolding window
window-past n first last [] l = refl
window-past n first last (line ∷ lines) l = ground (arith, window-past (n + 1) first last lines)

window-take :
    (k n first last : ℕ) (lines : List String)
    → first ≤ n
    → k + n ≡ last + 1
    → window n first last lines ≡ take k lines
unfolding window
window-take zero n first last lines l e = window-past n first last lines (omega arith)
window-take (suc k) n first last [] l e = refl
window-take (suc k) n first last (line ∷ lines) l e =
    ground (arith, window-take k (n + 1) first last lines)

window-drop :
    (d n first last : ℕ) (lines : List String)
    → first ≡ n + d
    → window n first last lines ≡ window first first last (drop d lines)
unfolding window
window-drop zero n first last lines e = ap (λ m. window m first last lines) (omega arith)
window-drop (suc d) n first last [] e = refl
window-drop (suc d) n first last (line ∷ lines) e =
    ground (arith, window-drop d (n + 1) first last lines)

min-suc : (k n : ℕ) → min (suc k) (suc n) ≡ suc (min k n)
min-suc k n = omega arith

min-zero : (n : ℕ) → min zero n ≡ zero
min-zero n = omega arith

min_of_zero : (k : ℕ) → min k zero ≡ zero
min_of_zero k = omega arith

drop-min : (k : ℕ) (lines : List String) → drop (min k (length lines)) lines ≡ drop k lines
drop-min zero lines = ap (λ m. drop m lines) (min-zero (length lines))
drop-min (suc k) [] = ap (λ m. drop m []) (min_of_zero (suc k))
drop-min (suc k) (line ∷ lines) =
    ap (λ m. drop m (line ∷ lines)) (min-suc k (length lines)) ∙ drop-min k lines

take-min : (k : ℕ) (lines : List String) → take (min k (length lines)) lines ≡ take k lines
take-min zero lines = ap (λ m. take m lines) (min-zero (length lines))
take-min (suc k) [] = ap (λ m. take m []) (min_of_zero (suc k))
take-min (suc k) (line ∷ lines) =
    ap (λ m. take m (line ∷ lines)) (min-suc k (length lines))
    ∙ ap (λ r. line ∷ r) (take-min k lines)

-- Bounds that are cut to the length never panic, and pick the lines that the bounds name.
slice-min :
    (from to : ℕ) (lines : List String)
    → from ≤ to
    → slice (min from (length lines)) (min to (length lines)) lines
      ≡ some (take (to - from) (drop from lines))
unfolding slice
slice-min from to lines l =
    let cut : take (min to (length lines) - min from (length lines))
          (drop (min from (length lines)) lines)
        ≡ take (to - from) (drop from lines) =
      rw (drop-min from lines) (
        ap (λ m. take m (drop from lines)) (omega (arith, length-drop from lines))
        ∙ take-min (to - from) (drop from lines)) in
    ground (arith, cut)

window-slice :
    (first last : ℕ) (lines : List String)
    → 1 ≤ first
    → first ≤ last
    → take (last - (first - 1)) (drop (first - 1) lines) ≡ window 1 first last lines
window-slice first last lines l m = sym (
    window-drop (first - 1) 1 first last lines (omega arith)
    ∙ window-take (last - (first - 1)) first first last (drop (first - 1) lines) (omega arith)
        (omega arith))

content_of-window :
    (request : WorkspaceReadRequest) (lines : List String)
    → content_of request lines
      ≡ some (join_lines (window 1 (first_line request) (last_line request lines) lines))
unfolding content_of join_lines window
content_of-window request [] = refl
content_of-window request (line ∷ lines) =
    let low : 1 ≤ first_line request = unfold first_line in omega arith in
    let high : first_line request ≤ last_line request (line ∷ lines) =
      unfold last_line in omega arith in
    rw
      (
        slice-min (first_line request - 1) (last_line request (line ∷ lines)) (line ∷ lines)
            (omega arith),
        window-slice (first_line request) (last_line request (line ∷ lines)) (line ∷ lines) low
            high,
      )
      refl

read_lines-window :
    (request : WorkspaceReadRequest) (lines : List String)
    → read_lines request lines
      ≡ some (
          ok (
            result_of request lines
              (join_lines (window 1 (first_line request) (last_line request lines) lines))))
unfolding read_lines result_of
read_lines-window request lines = rw (content_of-window request lines, read_lines) refl

ensure_file-ok :
    (disk : Disk) (path : String)
    → disk.exists path ≡ true
    → disk.is_file path ≡ true
    → ensure_file disk path ≡ ok tt
unfolding ensure_file
ensure_file-ok disk path x f = rw (x, f) refl

-- A file that is there and can be read is read without a panic. The first line asked for is the one
-- of the request, or 1 where it names none or names 0; the last one is that of the request, or the
-- last of the file where it names none, but not before the first. The answer holds the lines with the
-- numbers from the first to the last, joined by newlines, and no others; it names the first, the last
-- cut to the number of lines, and the number of lines, where a file without lines counts as one.
pub read_lem :
    (disk : Disk) (request : WorkspaceReadRequest) (content : String)
    → disk.exists request.path ≡ true
    → disk.is_file request.path ≡ true
    → disk.read_to_string request.path ≡ text content
    → let lines = lines_of content in
      let total = max (length lines) 1 in
      let first = max (unwrap_or 1 request.start_line) 1 in
      let last = max (unwrap_or total request.end_line) first in
      read disk request
      ≡ some (
          ok (record {
            path = request.path;
            content = join_lines (window 1 first last lines);
            start_line = first;
            end_line = min last total;
            total_lines = total;
          }))
unfolding read lines_of first_line last_line
read_lem disk request content x f r =
    ap (λ checked. after_check checked (read_content request (disk.read_to_string request.path)))
      (ensure_file-ok disk request.path x f)
    ∙ ap (read_content request) r
    ∙ read_lines-window request (lines_of content)

window-behind :
    (n first last : ℕ) (lines : List String)
    → n + length lines ≤ first
    → window n first last lines ≡ []
unfolding window
window-behind n first last [] l = refl
window-behind n first last (line ∷ lines) l = ground (arith, window-behind (n + 1) first last lines)

-- A read of a file that is there and can be read, from a line behind its end, answers with no text,
-- with the line asked for as the first line, and with the number of lines, which is smaller, as the
-- last line.
pub read-behind_end :
    (disk : Disk) (request : WorkspaceReadRequest) (content : String)
    → disk.exists request.path ≡ true
    → disk.is_file request.path ≡ true
    → disk.read_to_string request.path ≡ text content
    → max (length (lines_of content)) 1 < first_line request
    → let total = max (length (lines_of content)) 1 in
      read disk request
      ≡ some (
          ok (record {
            path = request.path;
            content = "";
            start_line = first_line request;
            end_line = total;
            total_lines = total;
          }))
unfolding join_lines first_line last_line
read-behind_end disk request content x f r l =
    let lines = lines_of content in
    let empty : window 1 (first_line request) (last_line request lines) lines ≡ [] =
      window-behind 1 (first_line request) (last_line request lines) lines (omega arith) in
    let cut : min (last_line request lines) (max (length lines) 1) ≡ max (length lines) 1 =
      omega arith in
    read_lem disk request content x f r ∙ rw (empty, cut) refl
