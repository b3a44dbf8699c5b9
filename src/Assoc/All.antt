-- ===== src/Assoc/All.antt =====
-- Properties of every value of a map, through the operations.
use liz.Prelude.{String, ◌≡◌, some, [], ◌∷◌, arith}
use liz.Assoc.{Assoc, lookup, insert, remove, AllValues}

module _ {κ} {V : Type 0} (P : V → Type κ) where
  pub AllValues-insert :
      (k : String) (v : V) (m : Assoc V) → AllValues P m → P v → AllValues P (insert k v m)
  unfolding insert
  AllValues-insert k v [] h p = (p, tt)
  AllValues-insert k v ((j, w) ∷ m) (q, h) p = ground (arith, AllValues-insert k v m h p)

  pub AllValues-remove : (k : String) (m : Assoc V) → AllValues P m → AllValues P (remove k m)
  unfolding remove
  AllValues-remove k [] h = h
  AllValues-remove k ((j, w) ∷ m) (q, h) = ground (arith, AllValues-remove k m h)

  pub AllValues-lookup :
      (k : String) (v : V) (m : Assoc V) → AllValues P m → lookup k m ≡ some v → P v
  unfolding lookup
  AllValues-lookup k v [] h e = cc
  AllValues-lookup k v ((j, w) ∷ m) (q, h) e = ground (arith, AllValues-lookup k v m h)
