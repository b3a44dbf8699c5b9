-- ===== src/Text.antt =====
-- The methods of Rust's `str` that the server walks text with: `trim`, `starts_with`,
-- `contains`, `to_ascii_lowercase`, `replace` and the printing of numbers. A text is the native
-- `String`, a list of Unicode scalar values.
pub mod Search
pub mod Digits
pub mod Split
pub mod Order
pub mod Pieces
use Prim.Native.Char.{Char, code}
use Prim.Native.Nat.{Ordering}
use Prim.Native.String.{[], ◌∷◌, ◌++◌, char_at, count, compare}
use mathlib.Core.List
use liz.Prelude.{List, ℕ, ◌-◌, String, Bool, true, false, ◌&&◌, ◌||◌, leb, eqb, if◌then◌else◌}

abbrev pub is_empty : String → Bool
is_empty [] = true
is_empty (c ∷ s) = false

-- char::is_whitespace: the code points of the Unicode property White_Space.
pub is_whitespace : Char → Bool
is_whitespace c =
    let n = code c in
    (leb 9 n && leb n 13)
    || eqb n 32
    || eqb n 133
    || eqb n 160
    || eqb n 5760
    || (leb 8192 n && leb n 8202)
    || eqb n 8232
    || eqb n 8233
    || eqb n 8239
    || eqb n 8287
    || eqb n 12288

pub trim_start : String → String
trim_start [] = []
trim_start (c ∷ s) = let rest = trim_start s in if is_whitespace c then rest else c ∷ s

pub trim_end : String → String
trim_end [] = []
trim_end (c ∷ s) =
    let rest = trim_end s in if is_empty rest && is_whitespace c then [] else c ∷ rest

unfoldable pub trim : String → String
unfolding trim_start trim_end is_whitespace
trim s = trim_end (trim_start s)

-- `starts_with needle hay` is `hay.starts_with(needle)`.
unfoldable pub starts_with : String → String → Bool
starts_with [] hay = true
starts_with (c ∷ needle) [] = false
starts_with (c ∷ needle) (d ∷ hay) = eqb (code c) (code d) && starts_with needle hay

-- `contains hay needle` is `hay.contains(needle)`.
unfoldable pub contains : String → String → Bool
unfolding starts_with
contains [] needle = starts_with needle []
contains (c ∷ hay) needle = starts_with needle (c ∷ hay) || contains hay needle

pub to_lower : Char → Char
to_lower c =
    if leb 65 (code c) && leb (code c) 90
    then char_at "abcdefghijklmnopqrstuvwxyz" (code c - 65)
    else c

unfoldable pub to_ascii_lowercase : String → String
unfolding to_lower
to_ascii_lowercase [] = []
to_ascii_lowercase (c ∷ s) = to_lower c ∷ to_ascii_lowercase s

-- `format!`: the parts of a message, joined. A `{}` is a part of its own.
abbrev pub format : List String → String
format List.[] = []
format (List.◌∷◌ s List.[]) = s
format (List.◌∷◌ s (List.◌∷◌ t parts)) = s ++ format (List.◌∷◌ t parts)

-- `join` with a separator.
unfoldable pub join : String → List String → String
join separator List.[] = []
join separator (List.◌∷◌ s List.[]) = s
join separator (List.◌∷◌ s (List.◌∷◌ t rest)) = s ++ (separator ++ join separator (List.◌∷◌ t rest))

-- `left.cmp(&right) != Greater` on texts.
abbrev pub text_le : String → String → Bool
text_le a b = elim (compare a b) [ Ordering.gt ↦ false | _ ↦ true ]

-- `replace` for a needle with at least one character: `skip` counts the characters of a match
-- that are still to be dropped.
replace_from : ℕ → String → String → String → String
replace_from skip needle by [] = []
replace_from (ℕ.suc skip) needle by (c ∷ s) = replace_from skip needle by s
replace_from ℕ.zero needle by (c ∷ s) =
    let hit = by ++ replace_from (count needle - 1) needle by s in
    let miss = c ∷ replace_from 0 needle by s in if starts_with needle (c ∷ s) then hit else miss

unfoldable pub replace : String → String → String → String
unfolding replace_from starts_with
replace s needle by = replace_from 0 needle by s
