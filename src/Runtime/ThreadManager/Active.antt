-- ===== src/Runtime/ThreadManager/Active.antt =====
-- The list of active threads.
use liz.Prelude.{
  ◌≡◌, ◌≢◌, refl, Bool, false, not, ◌||◌, ◌&&◌, List, [], ◌∷◌, ◌++◌, ◌==◌, any, retain, arith,
  eq_iff, eq_refl,
}
use liz.Protocol.Ids.{ThreadId}
use liz.Runtime.ThreadManager.{with_active}

abbrev pub lists : ThreadId → List ThreadId → Bool
lists id ids = any (λ value. value == id) ids

abbrev pub HasNoRepeats : List ThreadId → Type 0
HasNoRepeats [] = Unit
HasNoRepeats (id ∷ ids) = (lists id ids ≡ false) × HasNoRepeats ids

lists-append_one :
    (j id : ThreadId) (ids : List ThreadId) → lists j (ids ++ id ∷ []) ≡ (lists j ids || id == j)
unfolding any
lists-append_one j id [] = ground arith
lists-append_one j id (i ∷ ids) = ground (arith, lists-append_one j id ids)

lists-retain :
    (j id : ThreadId) (ids : List ThreadId)
    → lists j (retain (λ value. not (value == id)) ids) ≡ (lists j ids && not (j == id))
unfolding any retain
lists-retain j id [] = refl
lists-retain j id (i ∷ ids) =
    ground (arith, lists-retain j id ids, eq_iff i j, eq_iff i id, eq_iff j id)

HasNoRepeats-retain :
    (id : ThreadId) (ids : List ThreadId)
    → HasNoRepeats ids
    → HasNoRepeats (retain (λ value. not (value == id)) ids)
unfolding retain
HasNoRepeats-retain id [] h = h
HasNoRepeats-retain id (i ∷ ids) (a, h) =
    ground (arith, HasNoRepeats-retain id ids h, lists-retain i id ids)

HasNoRepeats-append_one :
    (id : ThreadId) (ids : List ThreadId)
    → lists id ids ≡ false
    → HasNoRepeats ids
    → HasNoRepeats (ids ++ id ∷ [])
unfolding any
HasNoRepeats-append_one id [] l h = (refl, tt)
HasNoRepeats-append_one id (i ∷ ids) l (a, h) =
    ground
      (arith, HasNoRepeats-append_one id ids, lists-append_one i id ids, eq_iff i id, eq_iff id i)

-- After a thread is put on the list of active threads or taken off it, the list names the thread
-- just when it was put on, names any other thread just when it did before, and has no repeats if it
-- had none.
pub with_active_lem :
    (id : ThreadId) (present : Bool) (ids : List ThreadId) (other : ThreadId)
    → (lists id (with_active id present ids) ≡ present)
      × (other ≢ id → lists other (with_active id present ids) ≡ lists other ids)
      × (HasNoRepeats ids → HasNoRepeats (with_active id present ids))
unfolding with_active
with_active_lem id present ids other = grind (
  arith,
  lists-append_one,
  lists-retain,
  HasNoRepeats-retain,
  HasNoRepeats-append_one,
  eq_refl,
  eq_iff id other,
  eq_iff other id,
)
