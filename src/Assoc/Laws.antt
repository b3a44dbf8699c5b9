-- ===== src/Assoc/Laws.antt =====
-- Laws of the maps.
use liz.Prelude.{String, ◌≡◌, refl, none, some, [], ◌∷◌, arith, ◌==◌, eq_iff, if◌then◌else◌}
use liz.Assoc.{Assoc, lookup, insert, remove}

module _ {V : Type 0} (key other : String) where
  pub lookup-insert :
      (entries : Assoc V) (value : V)
      → lookup other (insert key value entries)
        ≡ (if key == other then some value else lookup other entries)
  unfolding insert lookup
  lookup-insert [] value = refl
  lookup-insert ((found, old) ∷ entries) value =
      ground
        (arith, lookup-insert entries value, eq_iff found other, eq_iff found key, eq_iff key other)

  pub lookup-remove :
      (entries : Assoc V)
      → lookup other (remove key entries) ≡ (if key == other then none else lookup other entries)
  unfolding remove lookup
  lookup-remove [] = ground arith
  lookup-remove ((found, old) ∷ entries) =
      ground (arith, lookup-remove entries, eq_iff found other, eq_iff found key, eq_iff key other)

pub ruleset assoc_laws = (lookup-insert, lookup-remove)
