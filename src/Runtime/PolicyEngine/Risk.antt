-- ===== src/Runtime/PolicyEngine/Risk.antt =====
-- The risk of a turn and what it requires.
use Prim.Native.String.{◌++◌}
use liz.Prelude.{
  ℕ, ◌≤◌, String, ◌≡◌, refl, Bool, true, not, ◌||◌, List, [], ◌∷◌, arith, retain, any,
}
use liz.Text.{to_ascii_lowercase, contains}
use liz.Text.Search.{contains-append, to_ascii_lowercase-append}
use liz.Protocol.Primitives.{RiskLevel}
use liz.Runtime.PolicyEngine.{
  RetrievalScope, candidates, destructive, mutating, protected_targets, classify_risk, is_nil,
  evaluate,
}

abbrev pub rank : RiskLevel → ℕ
rank RiskLevel.low = 0
rank RiskLevel.medium = 1
rank RiskLevel.high = 2
rank RiskLevel.critical = 3

-- Whether a text names one of the hints, in any case of its letters.
abbrev pub mentions : List String → String → Bool
mentions hints input = any (contains (to_ascii_lowercase input)) hints

any-retain : (p : String → Bool) (xs : List String) → not (is_nil (retain p xs)) ≡ any p xs
unfolding any retain
any-retain p [] = refl
any-retain p (x ∷ xs) = ground (arith, any-retain p xs)

-- A turn requires approval just when its text mentions a protected target or a destructive word,
-- in any case of the letters, and a turn that requires approval requires a checkpoint.
pub evaluate-requires_approval :
    (input : String) (scope : RetrievalScope)
    → ((evaluate input scope).requires_approval
        ≡ (mentions candidates input || mentions destructive input))
      × ((evaluate input scope).requires_approval ≡ true
          → (evaluate input scope).requires_checkpoint ≡ true)
unfolding evaluate classify_risk protected_targets
evaluate-requires_approval input scope =
    ground (arith, any-retain (contains (to_ascii_lowercase input)) candidates)

any_mono :
    (p q : String → Bool) (xs : List String)
    → ((x : String) → p x ≡ true → q x ≡ true)
    → any p xs ≡ true
    → any q xs ≡ true
unfolding any
any_mono p q [] f h = h
any_mono p q (x ∷ xs) f h = ground (arith, f x, any_mono p q xs f)

mentions_mono :
    (pre input post : String) (hints : List String)
    → mentions hints input ≡ true
    → mentions hints (pre ++ (input ++ post)) ≡ true
mentions_mono pre input post hints =
    any_mono (contains (to_ascii_lowercase input))
      (contains (to_ascii_lowercase (pre ++ (input ++ post)))) hints
      λ x h.
        rw (to_ascii_lowercase-append pre (input ++ post), to_ascii_lowercase-append input post)
          (contains-append (to_ascii_lowercase pre) (to_ascii_lowercase input)
            (to_ascii_lowercase post) x h)

-- Text around an input never lowers its risk.
pub rank-classify_risk_mono :
    (pre input post : String)
    → rank (classify_risk input (protected_targets input))
      ≤ rank (classify_risk (pre ++ (input ++ post)) (protected_targets (pre ++ (input ++ post))))
unfolding classify_risk protected_targets
rank-classify_risk_mono pre input post = ground (
  arith,
  mentions_mono pre input post candidates,
  mentions_mono pre input post destructive,
  mentions_mono pre input post mutating,
  any-retain (contains (to_ascii_lowercase input)) candidates,
  any-retain (contains (to_ascii_lowercase (pre ++ (input ++ post)))) candidates,
)
