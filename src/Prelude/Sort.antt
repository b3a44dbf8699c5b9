-- ===== src/Prelude/Sort.antt =====
-- Vec::sort_by, which is stable, as an insertion sort, and Vec::dedup.
use mathlib.Core.Path.{◌≡◌, refl}
use mathlib.Core.Bool.{Bool, true, false, ◌||◌}
use mathlib.Core.List.{List, [], ◌∷◌}
use Prim.Native.Nat.{zero, suc, ℕ, ◌≤◌}
use native.Mathlib.Omega.{arith}
use liz.Prelude.Tests.{if◌then◌else◌}
use liz.Prelude.Lists.{any, length, All, retain, take, All-take, All-retain}

pub empty_of_length {ℓ} : {A : Type ℓ} (xs : List A) → length xs ≤ 0 → xs ≡ []
empty_of_length [] h = refl
empty_of_length (x ∷ xs) h = ground arith

module _ {ℓ} {A : Type ℓ} (le : A → A → Bool) where
  unfoldable pub insert_sorted : A → List A → List A
  insert_sorted x [] = x ∷ []
  insert_sorted x (y ∷ ys) =
      let rest = insert_sorted x ys in if le x y then x ∷ (y ∷ ys) else y ∷ rest

  unfoldable pub sort_by : List A → List A
  unfolding insert_sorted
  sort_by [] = []
  sort_by (x ∷ xs) = insert_sorted x (sort_by xs)

  any-insert_sorted :
      (p : A → Bool) (x : A) (ys : List A) → any p (insert_sorted x ys) ≡ (p x || any p ys)
  unfolding any insert_sorted
  any-insert_sorted p x [] = refl
  any-insert_sorted p x (y ∷ ys) = ground (arith, any-insert_sorted p x ys)

  -- Sorting keeps the members.
  pub any-sort_by : (p : A → Bool) (xs : List A) → any p (sort_by xs) ≡ any p xs
  unfolding any sort_by
  any-sort_by p [] = refl
  any-sort_by p (x ∷ xs) = ground (arith, any-sort_by p xs, any-insert_sorted p x (sort_by xs))

  length-insert_sorted : (x : A) (ys : List A) → length (insert_sorted x ys) ≡ suc (length ys)
  unfolding insert_sorted
  length-insert_sorted x [] = refl
  length-insert_sorted x (y ∷ ys) = ground (arith, length-insert_sorted x ys)

  pub length-sort_by : (xs : List A) → length (sort_by xs) ≡ length xs
  unfolding sort_by
  length-sort_by [] = refl
  length-sort_by (x ∷ xs) = omega (arith, length-sort_by xs, length-insert_sorted x (sort_by xs))

  retain-insert_sorted :
      (p : A → Bool) (x : A) (ys : List A)
      → (p x ≡ false → retain p (insert_sorted x ys) ≡ retain p ys)
        × (p x ≡ true → retain p ys ≡ [] → retain p (insert_sorted x ys) ≡ x ∷ [])
  unfolding retain insert_sorted
  retain-insert_sorted p x [] = ground arith
  retain-insert_sorted p x (y ∷ ys) = ground (arith, retain-insert_sorted p x ys)

  -- Sorting leaves the only member of a kind the only one.
  pub retain-sort_by :
      (p : A → Bool) (xs : List A) → length (retain p xs) ≤ 1 → retain p (sort_by xs) ≡ retain p xs
  unfolding retain sort_by
  retain-sort_by p [] h = refl
  retain-sort_by p (x ∷ xs) h = ground (
    arith,
    retain-sort_by p xs,
    retain-insert_sorted p x (sort_by xs),
    empty_of_length (retain p xs),
  )

  -- No member stands behind one that it should precede.
  abbrev pub IsSorted : List A → Type 0
  IsSorted [] = Unit
  IsSorted (x ∷ xs) = All (λ y. le x y ≡ true) xs × IsSorted xs

  pub IsSorted-take : (n : ℕ) (xs : List A) → IsSorted xs → IsSorted (take n xs)
  IsSorted-take zero xs h = tt
  IsSorted-take (suc n) [] h = tt
  IsSorted-take (suc n) (x ∷ xs) (k, h) = (All-take _ n xs k, IsSorted-take n xs h)

  pub IsSorted-retain : (p : A → Bool) (xs : List A) → IsSorted xs → IsSorted (retain p xs)
  unfolding retain
  IsSorted-retain p [] h = tt
  IsSorted-retain p (x ∷ xs) (k, h) =
      ground (arith, IsSorted-retain p xs h, All-retain (λ y. le x y ≡ true) p xs k)

  module _ (total : (x y : A) → le x y ≡ false → le y x ≡ true)
      (trans : (x y z : A) → le x y ≡ true → le y z ≡ true → le x z ≡ true) where
    All-insert_sorted :
        (z x : A) (ys : List A)
        → le z x ≡ true
        → All (λ y. le z y ≡ true) ys
        → All (λ y. le z y ≡ true) (insert_sorted x ys)
    unfolding insert_sorted
    All-insert_sorted z x [] l h = (l, tt)
    All-insert_sorted z x (y ∷ ys) l (k, h) = ground (arith, All-insert_sorted z x ys l h)

    All-le_trans :
        (x y : A) (ys : List A)
        → le x y ≡ true
        → All (λ z. le y z ≡ true) ys
        → All (λ z. le x z ≡ true) ys
    All-le_trans x y [] l h = tt
    All-le_trans x y (z ∷ zs) l (k, h) = (trans x y z l k, All-le_trans x y zs l h)

    insert_sorted-IsSorted : (x : A) (ys : List A) → IsSorted ys → IsSorted (insert_sorted x ys)
    unfolding insert_sorted
    insert_sorted-IsSorted x [] h = (tt, tt)
    insert_sorted-IsSorted x (y ∷ ys) (k, h) = ground (
      arith,
      insert_sorted-IsSorted x ys h,
      All-insert_sorted y x ys,
      total x y,
      All-le_trans x y ys,
    )

    pub sort_by-IsSorted : (xs : List A) → IsSorted (sort_by xs)
    unfolding sort_by
    sort_by-IsSorted [] = tt
    sort_by-IsSorted (x ∷ xs) = insert_sorted-IsSorted x (sort_by xs) (sort_by-IsSorted xs)

module _ {ℓ} {A : Type ℓ} (same : A → A → Bool) where
  -- The members of `x ∷ xs` without those that repeat the one before.
  unfoldable pub dedup_from : A → List A → List A
  dedup_from x [] = x ∷ []
  dedup_from x (y ∷ ys) =
      let kept = x ∷ dedup_from y ys in
      let dropped = dedup_from x ys in if same x y then dropped else kept

  unfoldable pub dedup : List A → List A
  unfolding dedup_from
  dedup [] = []
  dedup (x ∷ xs) = dedup_from x xs

module _ {ℓ} {A : Type ℓ} (P : A → Type ℓ) (le : A → A → Bool) where
  All-inserted : (x : A) (ys : List A) → P x → All P ys → All P (insert_sorted le x ys)
  unfolding insert_sorted
  All-inserted x [] px h = (px, tt)
  All-inserted x (y ∷ ys) px (py, h) =
      let later = All-inserted x ys px h in ground (arith, px, py, h, later)

  pub All-sort_by : (xs : List A) → All P xs → All P (sort_by le xs)
  unfolding sort_by
  All-sort_by [] h = tt
  All-sort_by (x ∷ xs) (px, h) = All-inserted x (sort_by le xs) px (All-sort_by xs h)

module _ {A : Type 0} (R : A → A → Type 0) where
  -- Each member is related to all that stand behind it.
  abbrev pub IsOrdered : List A → Type 0
  IsOrdered [] = Unit
  IsOrdered (x ∷ xs) = All (R x) xs × IsOrdered xs

module _ {A : Type 0} (R : A → A → Type 0) (le : A → A → Bool)
    (related : (x y : A) → le x y ≡ true → R x y) where
  All-related : (x : A) (xs : List A) → All (λ y. le x y ≡ true) xs → All (R x) xs
  All-related x [] h = tt
  All-related x (y ∷ xs) (l, h) = (related x y l, All-related x xs h)

  pub IsSorted-IsOrdered : (xs : List A) → IsSorted le xs → IsOrdered R xs
  IsSorted-IsOrdered [] h = tt
  IsSorted-IsOrdered (x ∷ xs) (k, h) = (All-related x xs k, IsSorted-IsOrdered xs h)
