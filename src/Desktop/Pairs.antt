-- ===== src/Desktop/Pairs.antt =====
-- Arrays of two, `[T; 2]`, indexed as Rust does: out of range is a panic.
use crab_os.Prelude.{ℕ, zero, suc, Bool, Option, none, some, if◌then◌else◌}

pub record Two {ℓ} (A : Type ℓ) : Type ℓ where
  pub zeroth : A
  pub first : A

module _ {ℓ} {A : Type ℓ} where
  abbrev pub at : Two A → ℕ → Option A
  at t zero = some t.zeroth
  at t (suc zero) = some t.first
  at t (suc (suc i)) = none

  abbrev pub put : Two A → ℕ → A → Option (Two A)
  put t zero a = some (record t { zeroth = a })
  put t (suc zero) a = some (record t { first = a })
  put t (suc (suc i)) a = none

  -- The index of the first that passes a test.
  abbrev pub position : (A → Bool) → Two A → Option ℕ
  position p t = if p t.zeroth then some 0 else if p t.first then some 1 else none
