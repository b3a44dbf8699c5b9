-- ===== src/Runtime/Ids/Distinct.antt =====
-- The numbers inside the identifiers of runtime/ids.rs.
use Prim.Native.String.{◌++◌}
use liz.Prelude.{ℕ, ◌+◌, ◌%◌, ◌^◌, ◌<◌, String, ◌≡◌, ◌≢◌, sym, ap, ◌∙◌, arith}
use liz.Text.Digits.{to_decimal, to_hex, last_number, last_number-to_decimal, last_number-append}
use liz.Runtime.Error.{RuntimeResult, ok, err}
use liz.Runtime.State.{RuntimeCoordinator}
use liz.Runtime.Ids.{identifier, next_value}

last_number-identifier :
    (prefix : String) (nanos sequence : ℕ)
    → last_number 0 (identifier prefix nanos sequence) ≡ sequence
unfolding identifier
last_number-identifier prefix nanos sequence =
    last_number-append prefix (to_hex nanos ++ ("_" ++ to_decimal sequence)) 0
    ∙ last_number-append (to_hex nanos) (to_decimal sequence) 0
    ∙ last_number-to_decimal sequence

number_of : RuntimeResult String → ℕ
number_of (ok id) = last_number 0 id
number_of (err e) = 0

-- An identifier that is given out when the counter is at a smaller number is different from one that
-- is given out later, whatever their kinds and the clock, as long as the counter has not wrapped
-- around.
pub next_value-distinct :
    (prefix other : String) (s t : RuntimeCoordinator)
    → s.ids.sequence < t.ids.sequence
    → t.ids.sequence + 1 < 2 ^ 64
    → (next_value prefix s).0 ≢ (next_value other t).0
unfolding next_value number_of
next_value-distinct prefix other s t l w h =
    let same : (s.ids.sequence + 1) % 2 ^ 64 ≡ (t.ids.sequence + 1) % 2 ^ 64 =
      sym (last_number-identifier prefix _ _) ∙ ap number_of h ∙ last_number-identifier other _ _ in
    omega (arith, same)
