-- ===== src/Assoc.antt =====
-- Rust's `HashMap` and `BTreeMap` with text keys, as an association list. The order of the list is
-- the order of iteration; `insert` replaces in place or appends.
pub mod Laws
pub mod All
use liz.Prelude.{
  String, Bool, true, false, Option, none, some, List, [], ◌∷◌, map, ◌==◌, if◌then◌else◌, retain,
  not,
}

abbrev pub Assoc : Type 0 → Type 0
Assoc V = List (String × V)

module _ {V : Type 0} where
  -- HashMap::get.
  unfoldable pub lookup : String → Assoc V → Option V
  lookup key [] = none
  lookup key ((found, value) ∷ rest) = if found == key then some value else lookup key rest

  unfoldable pub insert : String → V → Assoc V → Assoc V
  insert key value [] = (key, value) ∷ []
  insert key value ((found, old) ∷ rest) =
      let later = insert key value rest in
      if found == key then (found, value) ∷ rest else (found, old) ∷ later

  unfoldable pub remove : String → Assoc V → Assoc V
  unfolding retain
  remove k m = retain (λ e. not (e.0 == k)) m

  unfoldable pub contains_key : String → Assoc V → Bool
  unfolding lookup
  contains_key k m = elim (lookup k m) [ none ↦ false | some _ ↦ true ]

  abbrev pub values : Assoc V → List V
  values [] = []
  values ((k, v) ∷ m) = v ∷ values m

-- A property of every value.
abbrev pub AllValues {κ} : {V : Type 0} → (V → Type κ) → Assoc V → Type κ
AllValues P [] = Unit
AllValues P ((k, v) ∷ m) = P v × AllValues P m
