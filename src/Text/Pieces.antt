-- ===== src/Text/Pieces.antt =====
-- `split`, `matches`, `replace` and `replacen` of `str` for a text to look for, and what they have to
-- do with each other.
use Prim.Native.Char.{Char, code}
use Prim.Native.String.count
use text.Mathlib.TextEquality.{codes_equal}
use Prim.Native.String.{[], ◌∷◌, ◌++◌, count}
use text.Mathlib.TextLemmas.{cons-append, nil-append, append-nil}
use liz.Prelude.{
  ℕ, zero, suc, ◌+◌, ◌-◌, ◌≤◌, String, ◌≡◌, refl, ap, sym, Bool, true, false, List, arith, eqb,
  if◌then◌else◌, length, All,
}
use liz.Text.{is_empty, starts_with, contains, join}
use liz.Text.Split.{onto_first}
use liz.Text.Search.{starts_with-append}

-- The pieces of a text between the places where the needle is, found from the left and not
-- overlapping: `skip` counts the characters of a match that are still to be dropped.
unfoldable pub split_from : ℕ → String → String → List String
split_from skip needle [] = List.◌∷◌ [] List.[]
split_from (suc skip) needle (c ∷ s) = split_from skip needle s
split_from zero needle (c ∷ s) =
    let hit = List.◌∷◌ [] (split_from (count needle - 1) needle s) in
    let miss = onto_first c (split_from 0 needle s) in
    if starts_with needle (c ∷ s) then hit else miss

-- The characters, each a piece, and an empty piece at the end.
unfoldable pub split_chars : String → List String
split_chars [] = List.◌∷◌ [] List.[]
split_chars (c ∷ s) = List.◌∷◌ (c ∷ []) (split_chars s)

-- The empty needle is at the start, at the end and between any two characters.
unfoldable pub split_text : String → String → List String
unfolding split_from split_chars
split_text needle s = if is_empty needle then List.◌∷◌ [] (split_chars s) else split_from 0 needle s

-- `s.matches(needle).count()`.
unfoldable pub count_matches : String → String → ℕ
unfolding split_text
count_matches needle s = length (split_text needle s) - 1

-- `s.replace(needle, by)`.
unfoldable pub replace_all : String → String → String → String
unfolding split_text join
replace_all needle by s = join by (split_text needle s)

-- The first piece and the others, with a text between.
unfoldable pub join_first : String → String → List String → String
unfolding join
join_first needle by List.[] = []
join_first needle by (List.◌∷◌ piece List.[]) = piece
join_first needle by (List.◌∷◌ piece (List.◌∷◌ next pieces)) =
    piece ++ (by ++ join needle (List.◌∷◌ next pieces))

-- `s.replacen(needle, by, 1)`.
unfoldable pub replace_first : String → String → String → String
unfolding split_text join_first
replace_first needle by s = join_first needle by (split_text needle s)

drop_chars : ℕ → String → String
drop_chars zero s = s
drop_chars (suc k) [] = []
drop_chars (suc k) (c ∷ s) = drop_chars k s

length-onto_first : (c : Char) (pieces : List String) → 1 ≤ length (onto_first c pieces)
length-onto_first c List.[] = omega arith
length-onto_first c (List.◌∷◌ piece pieces) = omega arith

drop_chars-nil : (k : ℕ) → drop_chars k [] ≡ []
unfolding drop_chars
drop_chars-nil zero = refl
drop_chars-nil (suc k) = refl

same_char : (c d : Char) → eqb (code c) (code d) ≡ true → c ≡ d
same_char c d h = codes_equal c d (ground arith)

needle-drop_chars :
    (needle s : String) → starts_with needle s ≡ true → needle ++ drop_chars (count needle) s ≡ s
unfolding drop_chars starts_with
needle-drop_chars [] s h = nil-append s
needle-drop_chars (c ∷ needle) [] h = cc
needle-drop_chars (c ∷ needle) (d ∷ s) h =
    let same : c ≡ d = same_char c d (ground arith) in
    let rest : needle ++ drop_chars (count needle) s ≡ s =
      needle-drop_chars needle s (ground arith) in
    rw (count.cons, cons-append, rest, same) refl

split_from-drop :
    (k : ℕ) (needle s : String) → split_from k needle s ≡ split_from 0 needle (drop_chars k s)
unfolding split_from drop_chars
split_from-drop zero needle s = refl
split_from-drop (suc k) needle [] = refl
split_from-drop (suc k) needle (c ∷ s) = split_from-drop k needle s

length-split_from : (k : ℕ) (needle s : String) → 1 ≤ length (split_from k needle s)
unfolding split_from
length-split_from k needle [] = omega arith
length-split_from (suc k) needle (c ∷ s) = length-split_from k needle s
length-split_from zero needle (c ∷ s) = ground (
  arith,
  length-split_from (count needle - 1) needle s,
  length-onto_first c (split_from 0 needle s),
)

join-cons :
    (by piece : String) (pieces : List String)
    → 1 ≤ length pieces
    → join by (List.◌∷◌ piece pieces) ≡ piece ++ (by ++ join by pieces)
unfolding join
join-cons by piece List.[] h = ground arith
join-cons by piece (List.◌∷◌ next pieces) h = refl

join-onto_first :
    (by : String) (c : Char) (pieces : List String)
    → 1 ≤ length pieces
    → join by (onto_first c pieces) ≡ c ∷ join by pieces
unfolding join
join-onto_first by c List.[] h = ground arith
join-onto_first by c (List.◌∷◌ piece List.[]) h = refl
join-onto_first by c (List.◌∷◌ piece (List.◌∷◌ next pieces)) h =
    cons-append c piece (by ++ join by (List.◌∷◌ next pieces))

needle-drop_rest :
    (c : Char) (needle : String) (d : Char) (s : String)
    → starts_with (c ∷ needle) (d ∷ s) ≡ true
    → (c ∷ needle) ++ drop_chars (count (c ∷ needle) - 1) s ≡ d ∷ s
unfolding drop_chars
needle-drop_rest c needle d s h =
    let p : count (c ∷ needle) - 1 ≡ count needle = omega (arith, count.cons c needle) in
    let q : drop_chars (count (c ∷ needle)) (d ∷ s) ≡ drop_chars (count needle) s =
      ap (λ k. drop_chars k (d ∷ s)) (count.cons c needle) in
    cc (p, q, needle-drop_chars (c ∷ needle) (d ∷ s) h)

-- The pieces with the needle between them are the text.
join-split_from :
    (c : Char) (needle : String) (k : ℕ) (s : String)
    → join (c ∷ needle) (split_from k (c ∷ needle) s) ≡ drop_chars k s
unfolding split_from drop_chars
join-split_from c needle k [] = unfold join in sym (drop_chars-nil k)
join-split_from c needle (suc k) (d ∷ s) = join-split_from c needle k s
join-split_from c needle zero (d ∷ s) =
    let n = count (c ∷ needle) - 1 in
    let later = split_from n (c ∷ needle) s in
    let next = split_from 0 (c ∷ needle) s in
    ground (
      arith,
      join-split_from c needle n s,
      join-split_from c needle 0 s,
      join-cons (c ∷ needle) [] later (length-split_from n (c ∷ needle) s),
      join-onto_first (c ∷ needle) d next (length-split_from 0 (c ∷ needle) s),
      nil-append ((c ∷ needle) ++ join (c ∷ needle) later),
      needle-drop_rest c needle d s,
    )

length-split_chars : (s : String) → 1 ≤ length (split_chars s)
unfolding split_chars
length-split_chars [] = omega arith
length-split_chars (c ∷ s) = omega arith

join-split_chars : (s : String) → join [] (split_chars s) ≡ s
unfolding split_chars
join-split_chars [] = unfold join in refl
join-split_chars (c ∷ s) = cc (
  join-cons [] (c ∷ []) (split_chars s) (length-split_chars s),
  cons-append c [] ([] ++ join [] (split_chars s)),
  nil-append (join [] (split_chars s)),
  nil-append ([] ++ join [] (split_chars s)),
  join-split_chars s,
)

-- The pieces of a text, with the needle between each two of them, are the text; there is one piece
-- more than there are matches.
pub join-split_text :
    (needle s : String)
    → (join needle (split_text needle s) ≡ s)
      × (length (split_text needle s) ≡ count_matches needle s + 1)
unfolding split_text count_matches drop_chars
join-split_text [] s = (
  cc (
    join-cons [] [] (split_chars s) (length-split_chars s),
    nil-append (join [] (split_chars s)),
    nil-append ([] ++ join [] (split_chars s)),
    join-split_chars s,
  ),
  omega (arith, length-split_chars s),
)
join-split_text (c ∷ needle) s =
    (join-split_from c needle 0 s, omega (arith, length-split_from 0 (c ∷ needle) s))

starts_with_prefix :
    (needle s rest : String) → starts_with needle (s ++ rest) ≡ false → starts_with needle s ≡ false
starts_with_prefix needle s rest h = ground (arith, starts_with-append needle s rest)

-- The first piece is how the text begins.
join-prefix :
    (by piece : String) (pieces : List String)
    → (rest : String) × (join by (List.◌∷◌ piece pieces) ≡ piece ++ rest)
unfolding join
join-prefix by piece List.[] = ([], sym (append-nil piece))
join-prefix by piece (List.◌∷◌ next pieces) = (by ++ join by (List.◌∷◌ next pieces), refl)

unfoldable pub Lacks : String → String → Type 0
Lacks needle piece = contains piece needle ≡ false

Lacks-cons :
    (needle by : String) (d : Char) (piece : String) (pieces : List String)
    → starts_with needle (d ∷ join by (List.◌∷◌ piece pieces)) ≡ false
    → Lacks needle piece
    → Lacks needle (d ∷ piece)
unfolding Lacks contains
Lacks-cons needle by d piece pieces h a =
    let (rest, e) = join-prefix by piece pieces in
    let h' : starts_with needle ((d ∷ piece) ++ rest) ≡ false =
      cc (e, cons-append d piece rest, h) in
    ground (arith, a, starts_with_prefix needle (d ∷ piece) rest h')

Lacks-onto_first :
    (needle by : String) (d : Char) (pieces : List String)
    → 1 ≤ length pieces
    → starts_with needle (d ∷ join by pieces) ≡ false
    → All (Lacks needle) pieces
    → All (Lacks needle) (onto_first d pieces)
Lacks-onto_first needle by d List.[] l h a = ground arith
Lacks-onto_first needle by d (List.◌∷◌ piece pieces) l h (a, as') =
    (Lacks-cons needle by d piece pieces h a, as')

Lacks-nil : (c : Char) (needle : String) → Lacks (c ∷ needle) []
unfolding Lacks contains starts_with
Lacks-nil c needle = refl

if_All :
    (P : String → Type 0) (b : Bool) (xs ys : List String)
    → (b ≡ true → All P xs)
    → (b ≡ false → All P ys)
    → All P (if b then xs else ys)
if_All P true xs ys f g = f refl
if_All P false xs ys f g = g refl

split_from-Lacks :
    (c : Char) (needle : String) (k : ℕ) (s : String)
    → All (Lacks (c ∷ needle)) (split_from k (c ∷ needle) s)
unfolding split_from drop_chars
split_from-Lacks c needle k [] = (Lacks-nil c needle, tt)
split_from-Lacks c needle (suc k) (d ∷ s) = split_from-Lacks c needle k s
split_from-Lacks c needle zero (d ∷ s) =
    let n = count (c ∷ needle) - 1 in
    let next = split_from 0 (c ∷ needle) s in
    if_All (Lacks (c ∷ needle)) (starts_with (c ∷ needle) (d ∷ s))
      (List.◌∷◌ [] (split_from n (c ∷ needle) s)) (onto_first d next)
      (λ h. (Lacks-nil c needle, split_from-Lacks c needle n s))
      (λ h.
        Lacks-onto_first (c ∷ needle) (c ∷ needle) d next (length-split_from 0 (c ∷ needle) s)
          (rw (join-split_from c needle 0 s) h) (split_from-Lacks c needle 0 s))

-- No piece holds a needle that is not empty.
pub split_text-Lacks :
    (needle s : String) → is_empty needle ≡ false → All (Lacks needle) (split_text needle s)
unfolding split_text
split_text-Lacks [] s h = cc
split_text-Lacks (c ∷ needle) s h = split_from-Lacks c needle 0 s
