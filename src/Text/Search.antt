-- ===== src/Text/Search.antt =====
-- Laws of `starts_with`, `contains`, `to_ascii_lowercase` and `replace`.
use Prim.Native.String.{[], ◌∷◌, ◌++◌}
use text.Mathlib.TextLemmas.{cons-append, nil-append}
use liz.Prelude.{ap, String, ◌≡◌, refl, true, false, arith}
use liz.Text.{starts_with, contains, to_lower, to_ascii_lowercase, replace}

pub starts_with_refl : (needle : String) → starts_with needle needle ≡ true
unfolding starts_with
starts_with_refl [] = refl
starts_with_refl (c ∷ needle) = ground (arith, starts_with_refl needle)

pub starts_with-append :
    (needle hay rest : String)
    → starts_with needle hay ≡ true
    → starts_with needle (hay ++ rest) ≡ true
unfolding starts_with
starts_with-append [] hay rest h = refl
starts_with-append (c ∷ needle) [] rest h = cc
starts_with-append (c ∷ needle) (d ∷ hay) rest h =
    rw cons-append (ground (arith, starts_with-append needle hay rest))

contains_of_starts_with :
    (hay needle : String) → starts_with needle hay ≡ true → contains hay needle ≡ true
unfolding contains
contains_of_starts_with [] needle h = h
contains_of_starts_with (c ∷ hay) needle h = ground arith

pub contains-append_right :
    (hay rest needle : String) → contains hay needle ≡ true → contains (hay ++ rest) needle ≡ true
unfolding contains
contains-append_right [] rest needle h =
    contains_of_starts_with ([] ++ rest) needle (starts_with-append needle [] rest h)
contains-append_right (c ∷ hay) rest needle h = rw cons-append (
    ground (
      arith,
      contains-append_right hay rest needle,
      rw cons-append at (starts_with-append needle (c ∷ hay) rest),
    ))

pub contains-append_left :
    (pre hay needle : String) → contains hay needle ≡ true → contains (pre ++ hay) needle ≡ true
unfolding contains
contains-append_left [] hay needle h = rw nil-append h
contains-append_left (c ∷ pre) hay needle h =
    rw cons-append (ground (arith, contains-append_left pre hay needle))

-- A text that holds a needle still holds it with more text around.
pub contains-append :
    (pre hay post needle : String)
    → contains hay needle ≡ true
    → contains (pre ++ (hay ++ post)) needle ≡ true
contains-append pre hay post needle h =
    contains-append_left pre (hay ++ post) needle (contains-append_right hay post needle h)

pub contains_refl : (needle : String) → contains needle needle ≡ true
contains_refl needle = contains_of_starts_with needle needle (starts_with_refl needle)

pub to_ascii_lowercase-append :
    (s t : String) → to_ascii_lowercase (s ++ t) ≡ to_ascii_lowercase s ++ to_ascii_lowercase t
unfolding to_ascii_lowercase
to_ascii_lowercase-append [] t = rw nil-append (rw nil-append refl)
to_ascii_lowercase-append (c ∷ s) t =
    rw cons-append (rw cons-append (ap (λ r. to_lower c ∷ r) (to_ascii_lowercase-append s t)))

-- Replacing what does not occur changes nothing.
pub replace_absent : (s needle by : String) → contains s needle ≡ false → replace s needle by ≡ s
unfolding replace contains
replace_absent [] needle by h = refl
replace_absent (c ∷ s) needle by h = ground (arith, replace_absent s needle by)
