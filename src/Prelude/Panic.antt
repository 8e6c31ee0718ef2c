-- ===== src/Prelude/Panic.antt =====
-- Code that may panic: `none` is the panic, of an index out of range, a failed assertion, an
-- `expect`, or an arithmetic overflow.
use Prim.Native.Nat.{ℕ, ◌+◌, ◌-◌, ◌≤◌, ◌<◌}
use mathlib.Core.Path.{◌≡◌, refl}
use mathlib.Core.Bool.{Bool, true, false, not, ◌&&◌}
use mathlib.Core.Option.{Option, none, some}
use mathlib.Core.List.{List, ◌++◌}
use native.Mathlib.Omega.{arith}
use crab_os.Prelude.Tests.{ltb, leb, lt→ltb, le→leb, if◌then◌else◌}
use crab_os.Prelude.Lists.{length, set, take, drop, length-append, length-take, length-drop}

infixl 5 ◌>>=◌ ◌>>◌
abbrev pub ◌>>=◌ {ℓ κ} : {A : Type ℓ} {B : Type κ} → Option A → (A → Option B) → Option B
none >>= f = none
some a >>= f = f a

abbrev pub ◌>>◌ {ℓ} : {B : Type ℓ} → Option (Unit {0}) → Option B → Option B
m >> k = m >>= λ _. k

-- `assert!`
abbrev pub assert : Bool → Option (Unit {0})
assert true = some tt
assert false = none

module _ {ℓ} {A : Type ℓ} where
  -- `xs[i] = v`
  abbrev pub store : List A → ℕ → A → Option (List A)
  store xs i v = if ltb i (length xs) then some (set xs i v) else none

  -- `&xs[start..end]`
  abbrev pub slice : List A → ℕ → ℕ → Option (List A)
  slice xs start end =
      if leb start end && leb end (length xs)
      then some (take (end - start) (drop start xs))
      else none

  -- What `copy_within` leaves where its range lies in the array.
  abbrev pub moved : List A → ℕ → ℕ → ℕ → List A
  moved xs start end dest =
      take dest xs ++ (take (end - start) (drop start xs) ++ drop (dest + (end - start)) xs)

  -- `xs.copy_within(start..end, dest)`
  abbrev pub copy_within : List A → ℕ → ℕ → ℕ → Option (List A)
  copy_within xs start end dest =
      if leb start end && leb end (length xs) && leb (dest + (end - start)) (length xs)
      then some (moved xs start end dest)
      else none

  length-moved :
      (xs : List A) (start end dest : ℕ)
      → start ≤ end
      → end ≤ length xs
      → dest + (end - start) ≤ length xs
      → length (moved xs start end dest) ≡ length xs
  length-moved xs start end dest h k l =
      let rest = drop (dest + (end - start)) xs in
      let part = take (end - start) (drop start xs) in
      omega (
        arith,
        length-append (take dest xs) (part ++ rest),
        length-append part rest,
        length-take dest xs,
        length-take (end - start) (drop start xs),
        length-drop start xs,
        length-drop (dest + (end - start)) xs,
      )

  pub copy_within-eq_some :
      (xs : List A) (start end dest : ℕ)
      → start ≤ end
      → end ≤ length xs
      → dest + (end - start) ≤ length xs
      → copy_within xs start end dest ≡ some (moved xs start end dest)
  copy_within-eq_some xs start end dest h k l = rw (le→leb _ _ h, le→leb _ _ k, le→leb _ _ l)

  pub slice-eq_some :
      (xs : List A) (start end : ℕ)
      → start ≤ end
      → end ≤ length xs
      → slice xs start end ≡ some (take (end - start) (drop start xs))
  slice-eq_some xs start end h k = rw (le→leb _ _ h, le→leb _ _ k)

  pub store-eq_some :
      (xs : List A) (i : ℕ) (v : A) → i < length xs → store xs i v ≡ some (set xs i v)
  store-eq_some xs i v h = rw (lt→ltb _ _ h)

-- The code returns.
abbrev pub Returns {ℓ} : {A : Type ℓ} → Option A → Type ℓ
Returns {A = A} result = (a : A) × (result ≡ some a)

pub bind-Returns {ℓ κ} :
    {A : Type ℓ} {B : Type κ} (m : Option A) (f : A → Option B)
    → Returns m
    → ((a : A) → Returns (f a))
    → Returns (m >>= f)
bind-Returns m f (a, e) k = let (b, e') = k a in (b, rw e e')

-- The same where the value is known.
pub at-Returns {ℓ κ} :
    {A : Type ℓ} {B : Type κ} (m : Option A) (f : A → Option B) (a : A)
    → m ≡ some a
    → Returns (f a)
    → Returns (m >>= f)
at-Returns m f a e (b, e') = (b, rw e e')

pub not-eq_false : {b : Bool} → not b ≡ false → b ≡ true
not-eq_false {b} h = ground arith

pub if-Returns {ℓ} :
    {A : Type ℓ} (b : Bool) (x y : Option A)
    → (b ≡ true → Returns x)
    → (b ≡ false → Returns y)
    → Returns (if b then x else y)
if-Returns true x y h k = h refl
if-Returns false x y h k = k refl

pub if-eq_true {ℓ} : {A : Type ℓ} {b : Bool} (x y : A) → b ≡ true → (if b then x else y) ≡ x
if-eq_true {b = true} x y e = refl
if-eq_true {b = false} x y e = cc

pub if-eq_false {ℓ} : {A : Type ℓ} {b : Bool} (x y : A) → b ≡ false → (if b then x else y) ≡ y
if-eq_false {b = true} x y e = cc
if-eq_false {b = false} x y e = refl
