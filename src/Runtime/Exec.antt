-- ===== src/Runtime/Exec.antt =====
-- Methods that change the coordinator's state and may fail. What was changed before an early return
-- by `?` stays changed, so the state comes back beside the error too.
use liz.Prelude.{Option, none, some}
use liz.Runtime.Error.{RuntimeError, RuntimeResult, ok, err}
use liz.Runtime.State.{RuntimeCoordinator}

abbrev pub Exec : Type 0 → Type 0
Exec A = RuntimeCoordinator → RuntimeResult A × RuntimeCoordinator

module _ {A : Type 0} where
  unfoldable pub pure : A → Exec A
  pure a s = (ok a, s)

  unfoldable pub raise : RuntimeError → Exec A
  raise e s = (err e, s)

  unfoldable pub gets : (RuntimeCoordinator → A) → Exec A
  gets f s = (ok (f s), s)

  -- Option::ok_or_else, with `?`.
  unfoldable pub ok_or : Option A → RuntimeError → Exec A
  ok_or none e s = (err e, s)
  ok_or (some a) e s = (ok a, s)

unfoldable pub modify : (RuntimeCoordinator → RuntimeCoordinator) → Exec (Unit {0})
modify f s = (ok tt, f s)

module _ {A B : Type 0} where
  abbrev pub proceed :
      RuntimeResult A × RuntimeCoordinator → (A → Exec B) → RuntimeResult B × RuntimeCoordinator
  proceed (ok a, s) f = f a s
  proceed (err e, s) f = (err e, s)

  infixl 5 ◌>>=◌ ◌>>◌
  -- Opening this opens the actions above too.
  unfoldable pub ◌>>=◌ : Exec A → (A → Exec B) → Exec B
  unfolding pure raise gets ok_or modify
  ◌>>=◌ m f s = proceed (m s) f

  abbrev pub ◌>>◌ : Exec A → Exec B → Exec B
  m >> n = m >>= λ _. n
