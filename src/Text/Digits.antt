-- ===== src/Text/Digits.antt =====
-- The printing of numbers by `format!`: `{}`, `{:x}` and `{:09}`.
use Prim.Native.Char.{Char, code}
use Prim.Native.String.{[], ◌∷◌, ◌++◌, char_at, count}
use text.Mathlib.TextLemmas.{cons-append, nil-append}
use liz.Prelude.{
  ℕ, zero, suc, ◌+◌, ◌-◌, ◌*◌, ◌/◌, ◌%◌, ◌<◌, String, ◌≡◌, refl, sym, ap, ◌∙◌, arith, ltb, eqb,
  if◌then◌else◌, Bool-cases, inl, inr,
}

pub digit : ℕ → Char
digit d = char_at "0123456789abcdef" d

-- The digits of `n` in base `b`, in front of `out`; one unit of fuel for each digit.
pub print_from : ℕ → ℕ → ℕ → String → String
print_from zero b n out = out
print_from (suc fuel) b n out =
    let rest = print_from fuel b (n / b) (digit (n % b) ∷ out) in
    if ltb n b then digit (n % b) ∷ out else rest

-- `format!("{n}")`.
unfoldable pub to_decimal : ℕ → String
unfolding print_from digit
to_decimal n = print_from (suc n) 10 n []

-- `format!("{n:x}")`.
unfoldable pub to_hex : ℕ → String
unfolding print_from digit
to_hex n = print_from (suc n) 16 n []

zeros : ℕ → String → String
zeros zero s = s
zeros (suc n) s = b ∷ zeros n s
  where
    b : Char
    b = digit 0

-- `format!("{n:0width}")`.
unfoldable pub to_padded : ℕ → ℕ → String
unfolding to_decimal zeros
to_padded width n = let s = to_decimal n in zeros (width - count s) s

-- Reading the number behind the last underscore of a text.
step : ℕ → Char → ℕ
step acc c = if eqb (code c) b'_' then 0 else acc * 10 + (code c - 48)

pub last_number : ℕ → String → ℕ
last_number acc [] = acc
last_number acc (c ∷ s) = last_number (step acc c) s

step-digit : (acc d : ℕ) → d < 10 → step acc (digit d) ≡ acc * 10 + d
unfolding step digit
step-digit acc zero h = omega arith
step-digit acc (suc zero) h = refl
step-digit acc (suc (suc zero)) h = refl
step-digit acc (suc (suc (suc zero))) h = refl
step-digit acc (suc (suc (suc (suc zero)))) h = refl
step-digit acc (suc (suc (suc (suc (suc zero))))) h = refl
step-digit acc (suc (suc (suc (suc (suc (suc zero)))))) h = refl
step-digit acc (suc (suc (suc (suc (suc (suc (suc zero))))))) h = refl
step-digit acc (suc (suc (suc (suc (suc (suc (suc (suc zero)))))))) h = refl
step-digit acc (suc (suc (suc (suc (suc (suc (suc (suc (suc zero))))))))) h = refl
step-digit acc (suc (suc (suc (suc (suc (suc (suc (suc (suc (suc d)))))))))) h =
    absurd (omega arith)

last_number-print_from :
    (fuel n : ℕ) (out : String)
    → n < fuel
    → last_number 0 (print_from fuel 10 n out) ≡ last_number n out
unfolding print_from last_number
last_number-print_from zero n out h = absurd (omega arith)
last_number-print_from (suc fuel) n out h = elim (Bool-cases (ltb n 10)) [
  | inl small ↦
      rw small (ap (λ k. last_number k out) (step-digit 0 (n % 10) (omega arith) ∙ ground arith))
  | inr large ↦ rw large (
      last_number-print_from fuel (n / 10) (digit (n % 10) ∷ out) (ground arith)
      ∙ ap (λ k. last_number k out) (step-digit (n / 10) (n % 10) (omega arith) ∙ omega arith))
]

pub last_number-to_decimal : (n : ℕ) → last_number 0 (to_decimal n) ≡ n
unfolding to_decimal last_number
last_number-to_decimal n = last_number-print_from (suc n) n [] (omega arith)

pub last_number-append :
    (s t : String) (acc : ℕ) → last_number acc (s ++ "_" ++ t) ≡ last_number 0 t
unfolding last_number step
last_number-append [] t acc = rw nil-append (rw cons-append (rw nil-append refl))
last_number-append (c ∷ s) t acc = rw cons-append (last_number-append s t (step acc c))

-- Numbers printed in decimal differ if the numbers do.
pub to_decimal_injective : (m n : ℕ) → to_decimal m ≡ to_decimal n → m ≡ n
to_decimal_injective m n h =
    sym (last_number-to_decimal m) ∙ ap (last_number 0) h ∙ last_number-to_decimal n

to_decimal_1205 : to_decimal 1205 ≡ "1205"
unfolding to_decimal
to_decimal_1205 = refl

to_hex_255 : to_hex 255 ≡ "ff"
unfolding to_hex
to_hex_255 = refl

to_padded_9 : to_padded 9 42 ≡ "000000042"
unfolding to_padded
to_padded_9 = refl
