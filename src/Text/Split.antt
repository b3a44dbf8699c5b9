-- ===== src/Text/Split.antt =====
-- `split`, `split_whitespace`, `trim_matches` and `len` of `str`.
use Prim.Native.Char.{Char, code}
use Prim.Native.String.{[], ◌∷◌}
use liz.Prelude.{ℕ, ◌+◌, String, ◌≡◌, refl, Bool, not, ◌&&◌, ltb, if◌then◌else◌, List, retain}
use liz.Text.{is_empty, is_whitespace}

abbrev pub onto_first : Char → List String → List String
onto_first c List.[] = List.◌∷◌ (c ∷ []) List.[]
onto_first c (List.◌∷◌ part parts) = List.◌∷◌ (c ∷ part) parts

-- `split` at each character of a class: n of them give n + 1 parts.
unfoldable pub split_by : (Char → Bool) → String → List String
split_by p [] = List.◌∷◌ [] List.[]
split_by p (c ∷ s) =
    let parts = split_by p s in if p c then List.◌∷◌ [] parts else onto_first c parts

unfoldable pub split_whitespace : String → List String
unfolding split_by is_whitespace retain
split_whitespace s = retain (λ part. not (is_empty part)) (split_by is_whitespace s)

trim_start_matches : (Char → Bool) → String → String
trim_start_matches p [] = []
trim_start_matches p (c ∷ s) = let rest = trim_start_matches p s in if p c then rest else c ∷ s

trim_end_matches : (Char → Bool) → String → String
trim_end_matches p [] = []
trim_end_matches p (c ∷ s) =
    let rest = trim_end_matches p s in if is_empty rest && p c then [] else c ∷ rest

unfoldable pub trim_matches : (Char → Bool) → String → String
unfolding trim_start_matches trim_end_matches
trim_matches p s = trim_end_matches p (trim_start_matches p s)

-- The bytes of a character in UTF-8.
abbrev width : Char → ℕ
width c =
    if ltb (code c) 128
    then 1
    else if ltb (code c) 2_048
    then 2
    else if ltb (code c) 65_536
    then 3
    else 4

-- `len` counts bytes.
unfoldable pub byte_length : String → ℕ
byte_length [] = 0
byte_length (c ∷ s) = width c + byte_length s

split_three : split_whitespace " one  two\n" ≡ List.◌∷◌ "one" (List.◌∷◌ "two" List.[])
unfolding split_whitespace
split_three = refl
