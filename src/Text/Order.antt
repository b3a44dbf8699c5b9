-- ===== src/Text/Order.antt =====
-- The order of texts by their characters, which `cmp` on `str` is for valid UTF-8: it is total and
-- transitive.
use Prim.Native.Char.{Char, code}
use Prim.Native.Nat.{Ordering}
use Prim.Native.String.{[], ◌∷◌}
use Prim.Native.String.compare
use liz.Prelude.{String, ◌≡◌, refl, true, false, arith, Bool, ltb, ap, ◌∙◌, if◌then◌else◌}
use liz.Text.{text_le}

abbrev le_of : Ordering → Bool
le_of o = elim o [ Ordering.gt ↦ false | _ ↦ true ]

-- The order by the first characters, and by the rest where they are equal.
text_le-cons :
    (c d : Char) (s t : String)
    → text_le (c ∷ s) (d ∷ t) ≡ (
        if ltb (code c) (code d)
        then true
        else if ltb (code d) (code c)
        then false
        else text_le s t)
text_le-cons c d s t = ap le_of (compare.cons-cons c d s t) ∙ ground arith

text_le-nil : (s : String) → text_le [] s ≡ true
text_le-nil [] = refl
text_le-nil (d ∷ t) = ap le_of (compare.nil-cons d t)

text_le-cons-nil : (c : Char) (s : String) → text_le (c ∷ s) [] ≡ false
text_le-cons-nil c s = ap le_of (compare.cons-nil c s)

pub text_le_total : (a b : String) → text_le a b ≡ false → text_le b a ≡ true
text_le_total [] [] h = refl
text_le_total [] (d ∷ t) h = ground (arith, text_le-nil (d ∷ t))
text_le_total (c ∷ s) [] h = text_le-nil (c ∷ s)
text_le_total (c ∷ s) (d ∷ t) h =
    ground (arith, text_le-cons c d s t, text_le-cons d c t s, text_le_total s t)

pub text_le_trans : (a b c : String) → text_le a b ≡ true → text_le b c ≡ true → text_le a c ≡ true
text_le_trans [] b c h k = text_le-nil c
text_le_trans (x ∷ a) [] c h k = ground (arith, text_le-cons-nil x a)
text_le_trans (x ∷ a) (y ∷ b) [] h k = ground (arith, text_le-cons-nil y b)
text_le_trans (x ∷ a) (y ∷ b) (z ∷ c) h k =
    ground
      (arith, text_le-cons x y a b, text_le-cons y z b c, text_le-cons x z a c, text_le_trans a b c)
