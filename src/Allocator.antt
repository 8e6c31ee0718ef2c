-- ===== src/Allocator.antt =====
-- The heap allocators of src/allocator.rs and src/allocator/: layouts, regions of memory, `align_up`.
pub mod Region
pub mod Bump
pub mod FreeList
pub mod Blocks
mod Tests
use native.Mathlib.Nat.{mod-lt, mod-eq-sub-div-mul, div-mul-le_self, mul-mod_left}
use crab_os.Prelude.{
  ℕ, ◌/◌, ◌*◌, ◌+◌, ◌-◌, ◌%◌, ◌^◌, ◌≤◌, ◌<◌, ◌≡◌, Bool, Option, none, some, ltb, if◌then◌else◌,
  arith, lt→ltb, refl, ◌>>=◌,
}

-- `core::alloc::Layout`, whose alignment is a power of two.
pub record Layout : Type 0 where
  pub size : ℕ
  pub align : ℕ

-- `usize::checked_add`
abbrev pub checked_add : ℕ → ℕ → Option ℕ
checked_add a b = if ltb (a + b) (2 ^ 64) then some (a + b) else none

-- `a + b` of a `usize`: an overflow panics.
abbrev pub add_usize : ℕ → ℕ → Option ℕ
add_usize a b = checked_add a b

-- `x & !(align - 1)` clears the low bits of `x`, for a power of two.
abbrev pub clear_low : ℕ → ℕ → ℕ
clear_low x align = x - x % align

-- The sum overflows near the end of the address space. An alignment is above zero.
unfoldable pub align_up : ℕ → ℕ → Option ℕ
align_up addr align = add_usize addr align >>= λ x. some (clear_low (x - 1) align)

-- The next multiple, as a number.
unfoldable pub next_multiple : ℕ → ℕ → ℕ
next_multiple addr align = clear_low (addr + align - 1) align

whole : (x m : ℕ) → x - x % m ≡ x / m * m
whole x m = omega (arith, mod-eq-sub-div-mul x m, div-mul-le_self x m)

-- It goes up by less than the alignment.
pub next_multiple-bounds :
    (addr align : ℕ)
    → 0 < align
    → (addr ≤ next_multiple addr align)
      × (next_multiple addr align < addr + align)
      × (next_multiple addr align % align ≡ 0)
unfolding next_multiple
next_multiple-bounds addr align h =
    let x = addr + align - 1 in
    let less = mod-lt x h in
    let multiple = whole x align in
    (omega arith, omega arith, rw multiple (mul-mod_left (x / align) align))

pub checked_add-eq_some : (a b : ℕ) → a + b < 2 ^ 64 → checked_add a b ≡ some (a + b)
checked_add-eq_some a b h = rw (lt→ltb (a + b) (2 ^ 64) h) refl

-- `align_up` is the next multiple where the sum does not overflow.
pub align_up-eq_some :
    (addr align : ℕ) → addr + align < 2 ^ 64 → align_up addr align ≡ some (next_multiple addr align)
unfolding align_up next_multiple
align_up-eq_some addr align h = rw (checked_add-eq_some addr align h) refl
