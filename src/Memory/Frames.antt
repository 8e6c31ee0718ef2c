-- ===== src/Memory/Frames.antt =====
-- The frame allocator gives each usable frame once.
use crab_os.Prelude.{
  ℕ, zero, suc, ◌+◌, ◌-◌, ◌*◌, ◌/◌, ◌%◌, ◌^◌, ◌≤◌, ◌<◌, ◌≡◌, refl, sym, ap, ◌⊎◌, inl, inr, true,
  Option, none, some, List, [], ◌∷◌, ◌++◌, arith, lt→ltb, get_elem?, Bool-cases, Option-cases, All,
  subst, if-eq_true, if-eq_false,
}
use crab_os.System.{MemoryRegion}
use crab_os.Memory.{step_by, frame_addresses, frame_containing, nth, FrameAllocator, allocate_frame}

-- A memory map in order, of whole frames, below the 52 bits of a physical address.
abbrev pub Sorted : ℕ → List MemoryRegion → Type 0
Sorted low [] = Unit
Sorted low (r ∷ regions) =
    (low ≤ r.start_addr)
    × (r.start_addr ≤ r.end_addr)
    × (r.end_addr ≤ 2 ^ 52)
    × (r.start_addr % 4096 ≡ 0)
    × (r.end_addr % 4096 ≡ 0)
    × Sorted r.end_addr regions

-- The frame lies in a usable region.
abbrev pub InUsable : List MemoryRegion → ℕ → Type 0
InUsable [] frame = ⊥
InUsable (r ∷ regions) frame =
    ((r.is_usable ≡ true) × (r.start_addr ≤ frame) × (frame + 4096 ≤ r.end_addr))
    ⊎ InUsable regions frame

-- Frames from an address on, none of which overlaps the next.
abbrev Spaced : ℕ → List ℕ → Type 0
Spaced low [] = Unit
Spaced low (f ∷ frames) = (low ≤ f) × (f < 2 ^ 52) × (f % 4096 ≡ 0) × Spaced (f + 4096) frames

Spaced-mono : (low low' : ℕ) (frames : List ℕ) → low ≤ low' → Spaced low' frames → Spaced low frames
Spaced-mono low low' [] h s = tt
Spaced-mono low low' (f ∷ frames) h s = (let a = s.0 in omega arith, s.1, s.2, s.3)

step_by-Spaced :
    (count addr high : ℕ) (frames : List ℕ)
    → addr % 4096 ≡ 0
    → addr + count * 4096 ≤ high
    → high ≤ 2 ^ 52
    → Spaced high frames
    → Spaced addr (step_by count addr ++ frames)
step_by-Spaced zero addr high frames a h k s = Spaced-mono addr high frames (omega arith) s
step_by-Spaced (suc count) addr high frames a h k s = (
  omega arith,
  omega arith,
  a,
  step_by-Spaced count (addr + 4096) high frames (omega arith) (omega arith) k s,
)

frame_addresses-Spaced :
    (low : ℕ) (regions : List MemoryRegion)
    → Sorted low regions
    → Spaced low (frame_addresses regions)
unfolding frame_addresses
frame_addresses-Spaced low [] s = tt
frame_addresses-Spaced low (r ∷ regions) (h0, h1, h2, h3, h4, rest) =
    let later = frame_addresses-Spaced r.end_addr regions rest in
    elim (Bool-cases r.is_usable) [
      | inl e ↦ rw e (
          Spaced-mono low r.start_addr _ h0 (
            step_by-Spaced ((r.end_addr - r.start_addr + 4095) / 4096) r.start_addr r.end_addr
              (frame_addresses regions) h3 (omega arith) h2 later))
      | inr e ↦ rw e (Spaced-mono low r.end_addr _ (omega arith) later)
    ]

-- What holds of every frame that is given.
abbrev Good : List MemoryRegion → ℕ → Type 0
Good regions frame = InUsable regions frame × (frame % 4096 ≡ 0)

goods_of :
    (r : MemoryRegion) (regions : List MemoryRegion) (frames : List ℕ)
    → All (Good regions) frames
    → All (Good (r ∷ regions)) frames
goods_of r regions [] h = tt
goods_of r regions (f ∷ frames) h = ((inr h.0.0, h.0.1), goods_of r regions frames h.1)

step_by-Good :
    (r : MemoryRegion) (regions : List MemoryRegion) (count addr : ℕ) (frames : List ℕ)
    → r.is_usable ≡ true
    → r.start_addr ≤ addr
    → addr + count * 4096 ≤ r.end_addr
    → addr % 4096 ≡ 0
    → All (Good (r ∷ regions)) frames
    → All (Good (r ∷ regions)) (step_by count addr ++ frames)
step_by-Good r regions zero addr frames u l h a g = g
step_by-Good r regions (suc count) addr frames u l h a g = (
  (inl (u, l, omega arith), a),
  step_by-Good r regions count (addr + 4096) frames u (omega arith) (omega arith) (omega arith) g,
)

frame_addresses-Good :
    (low : ℕ) (regions : List MemoryRegion)
    → Sorted low regions
    → All (Good regions) (frame_addresses regions)
unfolding frame_addresses
frame_addresses-Good low [] s = tt
frame_addresses-Good low (r ∷ regions) (h0, h1, h2, h3, h4, rest) =
    let later =
      goods_of r regions (frame_addresses regions) (frame_addresses-Good r.end_addr regions rest) in
    let All_good : List ℕ → Type 0 = All (Good (r ∷ regions)) in
    elim (Bool-cases r.is_usable) [
      | inl e ↦ subst All_good (sym (if-eq_true _ _ e)) (
          step_by-Good r regions ((r.end_addr - r.start_addr + 4095) / 4096) r.start_addr
            (frame_addresses regions) e (omega arith) (omega arith) h3 later)
      | inr e ↦ subst All_good (sym (if-eq_false _ _ e)) later
    ]

frame_containing-eq : (f : ℕ) → f < 2 ^ 52 → f % 4096 ≡ 0 → frame_containing f ≡ some f
frame_containing-eq f h a =
    rw (lt→ltb f (2 ^ 52) h) (ap (λ (n : ℕ). some n) (let e : f - f % 4096 ≡ f = omega arith in e))

-- No address is out of range, and each is its own frame.
nth-eq :
    (n low : ℕ) (frames : List ℕ) → Spaced low frames → nth n frames ≡ some (get_elem? frames n)
unfolding nth
nth-eq n low [] s = refl
nth-eq zero low (f ∷ frames) s = rw (frame_containing-eq f s.1 s.2) refl
nth-eq (suc n) low (f ∷ frames) s =
    rw (frame_containing-eq f s.1 s.2) (nth-eq n (f + 4096) frames s.3)

above : (low n f : ℕ) (frames : List ℕ) → Spaced low frames → get_elem? frames n ≡ some f → low ≤ f
above low n f [] s e = absurd cc
above low zero f (g ∷ frames) s e = let same : g ≡ f = cc in omega (arith, s.0)
above low (suc n) f (g ∷ frames) s e =
    let more = above (g + 4096) n f frames s.3 e in omega (arith, s.0)

apart :
    (low n m f g : ℕ) (frames : List ℕ)
    → Spaced low frames
    → n < m
    → get_elem? frames n ≡ some f
    → get_elem? frames m ≡ some g
    → f + 4096 ≤ g
apart low n m f g [] s h e e' = absurd cc
apart low n zero f g (x ∷ frames) s h e e' = absurd (omega arith)
apart low zero (suc m) f g (x ∷ frames) s h e e' =
    let same : x ≡ f = cc in let more = above (x + 4096) m g frames s.3 e' in omega arith
apart low (suc n) (suc m) f g (x ∷ frames) s h e e' =
    apart (x + 4096) n m f g frames s.3 (omega arith) e e'

ends : (n m : ℕ) (frames : List ℕ) → n < m → get_elem? frames n ≡ none → get_elem? frames m ≡ none
ends n m [] h e = refl
ends n zero (x ∷ frames) h e = absurd (omega arith)
ends zero (suc m) (x ∷ frames) h e = absurd cc
ends (suc n) (suc m) (x ∷ frames) h e = ends n m frames (omega arith) e

-- What a call gives, and how an earlier one compares: nothing comes after nothing, and a later frame is
-- behind an earlier one.
abbrev pub GoodIf : List MemoryRegion → Option ℕ → Type 0
GoodIf regions none = Unit
GoodIf regions (some frame) = Good regions frame

abbrev pub Before : Option ℕ → Option ℕ → Type 0
Before none none = Unit
Before none (some later) = ⊥
Before (some earlier) none = Unit
Before (some earlier) (some later) = earlier + 4096 ≤ later

abbrev pub after_calls : List MemoryRegion → ℕ → FrameAllocator
after_calls memory_map calls = record { memory_map = memory_map; next = calls }

-- Two calls of `allocate_frame`, an earlier and a later one.
pub record Gives (memory_map : List MemoryRegion) (n m : ℕ) : Type 0 where
  pub earlier : Option ℕ
  pub later : Option ℕ
  pub earlier_returns :
      allocate_frame (after_calls memory_map n) ≡ some (after_calls memory_map (n + 1), earlier)
  pub later_returns :
      allocate_frame (after_calls memory_map m) ≡ some (after_calls memory_map (m + 1), later)
  pub earlier_good : GoodIf memory_map earlier
  pub later_good : GoodIf memory_map later
  pub before : Before earlier later

Good-at :
    (regions : List MemoryRegion) (frames : List ℕ) (n : ℕ)
    → All (Good regions) frames
    → GoodIf regions (get_elem? frames n)
Good-at regions [] n h = tt
Good-at regions (f ∷ frames) zero h = h.0
Good-at regions (f ∷ frames) (suc n) h = Good-at regions frames n h.1

compare :
    (low n m : ℕ) (frames : List ℕ)
    → Spaced low frames
    → n < m
    → Before (get_elem? frames n) (get_elem? frames m)
compare low n m frames s h = elim (Option-cases (get_elem? frames n)) [
  | inl e ↦ rw (e, ends n m frames h e) tt
  | inr (f, e) ↦ elim (Option-cases (get_elem? frames m)) [
    | inl e' ↦ rw (e, e') tt
    | inr (g, e') ↦ rw (e, e') (apart low n m f g frames s h e e')
  ]
]

-- On a memory map in order, of whole frames below 2 ^ 52, `allocate_frame` panics nowhere, however
-- often it is called. Every frame that it gives lies in a usable region and on a frame's boundary; a
-- later call gives a frame that does not overlap an earlier one, and none once there was none.
pub allocate_frame-Gives :
    (memory_map : List MemoryRegion) (n m : ℕ) → Sorted 0 memory_map → n < m → Gives memory_map n m
unfolding allocate_frame
allocate_frame-Gives memory_map n m s h =
    let spaced = frame_addresses-Spaced 0 memory_map s in
    let goods = frame_addresses-Good 0 memory_map s in
    let frames = frame_addresses memory_map in
    record {
      earlier = get_elem? frames n;
      later = get_elem? frames m;
      earlier_returns = rw (nth-eq n 0 frames spaced) refl;
      later_returns = rw (nth-eq m 0 frames spaced) refl;
      earlier_good = Good-at memory_map frames n goods;
      later_good = Good-at memory_map frames m goods;
      before = compare 0 n m frames spaced h;
    }
