-- ===== src/Allocator/FreeList/Sizes.antt =====
-- `size_align`: what a layout asks for once a node fits in its block.
use native.Mathlib.Nat.{
  mul-mod_left, mul_assoc, mod-eq-sub-div-mul, div-mul-le_self, pow-suc, one-le-pow,
}
use crab_os.Prelude.{
  ℕ, zero, suc, ◌+◌, ◌-◌, ◌*◌, ◌%◌, ◌/◌, ◌^◌, ◌≤◌, ◌<◌, ◌≡◌, refl, sym, ◌∙◌, ap, max, some, List,
  ◌∷◌, le→leb, ==-eq_true, arith,
}
use crab_os.Allocator.{Layout, next_multiple, next_multiple-bounds, align_up-eq_some}
use crab_os.Allocator.Region.{Region}
use crab_os.Allocator.FreeList.{node_size, node_align, isize_max, size_align, add_free_region}

-- What `Layout` promises, with room for the alignment of a node.
pub record IsLayout (layout : Layout) : Type 0 where
  pub exponent : ℕ
  pub power : layout.align ≡ 2 ^ exponent
  pub fits : layout.size + max layout.align node_align - 1 ≤ isize_max

-- A multiple of an alignment that is used has the alignment that was asked for, and that of a node.
pub record Sized (layout : Layout) (size : ℕ) (align : ℕ) : Type 0 where
  pub returns : size_align layout ≡ some (size, align)
  pub of_node : align ≡ max layout.align node_align
  pub room : layout.size ≤ size
  pub node : node_size ≤ size
  pub whole : size % node_align ≡ 0
  pub pos : 0 < align
  pub both : (at : ℕ) → at % align ≡ 0 → (at % layout.align ≡ 0) × (at % node_align ≡ 0)

mod_of_multiple : (x a b m : ℕ) → a ≡ b * m → x % a ≡ 0 → x % m ≡ 0
mod_of_multiple x a b m e h =
    let q = x / a in
    let exact : x ≡ q * a = omega (arith, mod-eq-sub-div-mul x a, div-mul-le_self x a) in
    ap (λ (t : ℕ). t % m) (exact ∙ ap (λ (t : ℕ). q * t) e ∙ sym (mul_assoc q b m))
    ∙ mul-mod_left (q * b) m

-- The larger of a power of two and eight is a multiple of both.
max_multiple :
    (k : ℕ) → ((b : ℕ) × (max (2 ^ k) 8 ≡ b * 2 ^ k)) × ((c : ℕ) × (max (2 ^ k) 8 ≡ c * 8))
max_multiple zero = ((8, refl), (1, refl))
max_multiple (suc zero) = ((4, refl), (1, refl))
max_multiple (suc (suc zero)) = ((2, refl), (1, refl))
max_multiple (suc (suc (suc j))) =
    let a = pow-suc 2 j in
    let b = pow-suc 2 (suc j) in
    let c = pow-suc 2 (suc (suc j)) in
    let p = one-le-pow j 2 (omega arith) in ((1, omega arith), (2 ^ j, omega arith))

pub size_align-Sized :
    (layout : Layout) → IsLayout layout → (size : ℕ) × (align : ℕ) × Sized layout size align
unfolding size_align
size_align-Sized layout v =
    let align = max layout.align node_align in
    let ((b, eb), (c, ec)) = max_multiple v.exponent in
    let at_least : 0 < align = omega arith in
    let (up, less, even) = next_multiple-bounds layout.size align at_least in
    let e : align ≡ max (2 ^ v.exponent) 8 = ap (λ (a : ℕ). max a 8) v.power in
    let of_layout : align ≡ b * layout.align = e ∙ eb ∙ ap (λ (a : ℕ). b * a) (sym v.power) in
    let of_node : align ≡ c * 8 = e ∙ ec in
    let padded = mod_of_multiple (next_multiple layout.size align) align c 8 of_node even in
    (
      max (next_multiple layout.size align) node_size,
      align,
      record {
        returns = rw (le→leb (layout.size + align - 1) isize_max v.fits) refl;
        of_node = refl;
        room = omega arith;
        node = omega arith;
        whole = omega arith;
        pos = at_least;
        both = λ at h. (
          mod_of_multiple at align b layout.align of_layout h,
          mod_of_multiple at align c 8 of_node h,
        );
      },
    )

next_multiple_self : (x : ℕ) → x % 8 ≡ 0 → next_multiple x 8 ≡ x
unfolding next_multiple
next_multiple_self x h = omega arith

-- The assertions of `add_free_region` hold for a region that is aligned, holds a node and ends in the
-- address space.
pub add_free_region-eq_some :
    (free : List Region) (addr size : ℕ)
    → addr % node_align ≡ 0
    → node_size ≤ size
    → addr + size < 2 ^ 64
    → add_free_region free addr size ≡ some (record { start = addr; size = size } ∷ free)
unfolding add_free_region
add_free_region-eq_some free addr size h k l = rw (align_up-eq_some addr 8 (omega arith)) (
    rw (==-eq_true (next_multiple addr 8) addr (next_multiple_self addr h), le→leb node_size size k)
      refl)
