-- ===== src/Prelude/Int.antt =====
-- Signed integers over the native numbers, under the library's names (its ℤ stands on the unary ℕ):
-- Rust's `i16`. Sums and orders go through the two parts of an integer, which `omega` reads.
use Prim.Native.Nat.{ℕ, suc, ◌+◌, ◌-◌, ◌*◌, ◌/◌, ◌%◌, ◌≤◌, ◌<◌}
use mathlib.Core.Path.{◌≡◌}
use mathlib.Core.Bool.{Bool, ◌&&◌}
use mathlib.Core.Option.{Option, some}
use native.Mathlib.Omega.{arith}
use crab_os.Prelude.Tests.{ltb, leb, if◌then◌else◌}
use crab_os.Prelude.Panic.{assert, ◌>>◌}

-- `negsuc n` is -(n + 1).
pub data ℤ : Type 0 where
  pos : ℕ → ℤ
  negsuc : ℕ → ℤ

abbrev pub pos_part : ℤ → ℕ
pos_part (pos n) = n
pos_part (negsuc n) = 0

abbrev pub neg_part : ℤ → ℕ
neg_part (pos n) = 0
neg_part (negsuc n) = suc n

-- a - b, as an integer.
abbrev pub sub_ℕ : ℕ → ℕ → ℤ
sub_ℕ a b = if leb b a then pos (a - b) else negsuc (b - a - 1)

infixl 65 ◌+ℤ◌ ◌-ℤ◌
infix 50 ◌≤ℤ◌
unfoldable pub ◌+ℤ◌ : ℤ → ℤ → ℤ
a +ℤ b = sub_ℕ (pos_part a + pos_part b) (neg_part a + neg_part b)

unfoldable pub ◌-ℤ◌ : ℤ → ℤ → ℤ
a -ℤ b = sub_ℕ (pos_part a + neg_part b) (neg_part a + pos_part b)

-- `a / n` and `a % n` for a positive `n`: the quotient is cut toward zero, and the remainder has the
-- sign of `a`.
unfoldable pub quot : ℤ → ℕ → ℤ
quot (pos a) n = pos (a / n)
quot (negsuc a) n = sub_ℕ 0 (suc a / n)

unfoldable pub rem : ℤ → ℕ → ℤ
rem (pos a) n = pos (a % n)
rem (negsuc a) n = sub_ℕ 0 (suc a % n)

abbrev pub ◌≤ℤ◌ : ℤ → ℤ → Type 0
a ≤ℤ b = pos_part a + neg_part b ≤ pos_part b + neg_part a

abbrev pub leb_ℤ : ℤ → ℤ → Bool
leb_ℤ a b = leb (pos_part a + neg_part b) (pos_part b + neg_part a)

abbrev pub ltb_ℤ : ℤ → ℤ → Bool
ltb_ℤ a b = ltb (pos_part a + neg_part b) (pos_part b + neg_part a)

abbrev pub eqb_ℤ : ℤ → ℤ → Bool
eqb_ℤ a b = leb_ℤ a b && leb_ℤ b a

-- `x.clamp(low, high)`, which asserts that the bounds are in order.
unfoldable pub clamp : ℤ → ℤ → ℤ → Option ℤ
clamp x low high =
    assert (leb_ℤ low high) >> some (if ltb_ℤ x low then low else if ltb_ℤ high x then high else x)

abbrev pub InRange : ℤ → ℤ → ℤ → Type 0
InRange low high a = (low ≤ℤ a) × (a ≤ℤ high)

pub clamp-InRange :
    (x low high : ℤ) → low ≤ℤ high → (y : ℤ) × (clamp x low high ≡ some y) × InRange low high y
unfolding clamp
clamp-InRange x low high h =
    (if ltb_ℤ x low then low else if ltb_ℤ high x then high else x, ground arith, ground arith)

-- In range `clamp` changes nothing.
pub clamp-eq_some : (x low high : ℤ) → InRange low high x → clamp x low high ≡ some x
unfolding clamp
clamp-eq_some x low high h = ground arith

pub +ℤ_parts :
    (a b : ℤ)
    → pos_part (a +ℤ b) + neg_part a + neg_part b ≡ neg_part (a +ℤ b) + pos_part a + pos_part b
unfolding ◌+ℤ◌
+ℤ_parts a b = ground arith

pub -ℤ_parts :
    (a b : ℤ)
    → pos_part (a -ℤ b) + neg_part a + pos_part b ≡ neg_part (a -ℤ b) + pos_part a + neg_part b
unfolding ◌-ℤ◌
-ℤ_parts a b = ground arith

pub eq_of_parts : (a b : ℤ) → pos_part a + neg_part b ≡ pos_part b + neg_part a → a ≡ b
eq_of_parts a b h = ground arith

-- The parts of sums, for `omega`.
pub ruleset int_laws = (arith, +ℤ_parts, -ℤ_parts)

-- Nothing is lost in a division with remainder.
pub division_law :
    (a : ℤ) (n : ℕ)
    → pos_part a + n * neg_part (quot a n) + neg_part (rem a n)
      ≡ neg_part a + n * pos_part (quot a n) + pos_part (rem a n)
unfolding quot rem
division_law (pos a) n = grind arith
division_law (negsuc a) n = grind arith

pub rem_bound : (a : ℤ) (n : ℕ) → 0 < n → pos_part (rem a n) + neg_part (rem a n) < n
unfolding rem
rem_bound (pos a) n h = ground arith
rem_bound (negsuc a) n h = ground arith

-- `n` times `a`.
abbrev pub scale : ℕ → ℤ → ℤ
scale n a = sub_ℕ (n * pos_part a) (n * neg_part a)

pub division_sum : (a : ℤ) (n : ℕ) → scale n (quot a n) +ℤ rem a n ≡ a
unfolding ◌+ℤ◌
division_sum a n = let e = division_law a n in eq_of_parts _ a (ground arith)
