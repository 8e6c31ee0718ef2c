-- ===== src/Allocator/Blocks/Reuse.antt =====
-- Blocks that come back are used again, and the requested bytes are counted.
use crab_os.Prelude.{
  ℕ, zero, suc, ◌+◌, ◌-◌, ◌%◌, ◌^◌, ◌≤◌, ◌<◌, ◌≡◌, refl, sym, ◌∙◌, ap, ◌⊎◌, inl, inr, Option, none,
  some, List, [], ◌∷◌, ◌++◌, get_elem?, get_elem?_of_lt, get_elem?-set_self, set, length,
  length-set, All, All-get_elem?, store-eq_some, lt→ltb, le→leb, arith,
}
use crab_os.Allocator.{Layout}
use crab_os.Allocator.Blocks.{
  Fallback, Allocator, block_sizes, list_index, fallback_alloc, alloc_listed, alloc_class, alloc,
  count_up, count_down, dealloc_class, dealloc,
}
use crab_os.Allocator.Blocks.Classes.{list_index-cases}

abbrev pub sum : List ℕ → ℕ
sum [] = 0
sum (n ∷ ns) = n + sum ns

sum-append : (xs ys : List ℕ) → sum (xs ++ ys) ≡ sum xs + sum ys
sum-append [] ys = omega arith
sum-append (x ∷ xs) ys = omega (arith, sum-append xs ys)

set_back :
    {A : Type 0} (xs : List A) (i : ℕ) (v w : A)
    → get_elem? xs i ≡ some w
    → set (set xs i v) i w ≡ xs
set_back [] i v w h = refl
set_back (x ∷ xs) zero v w h = let same : x ≡ w = cc in ap (λ y. y ∷ xs) (sym same)
set_back (x ∷ xs) (suc i) v w h = ap (λ ys. x ∷ ys) (set_back xs i v w h)

sizes_big : All (λ s. 8 ≤ s) block_sizes
sizes_big = (
  omega arith,
  (
    omega arith,
    (
      omega arith,
      (omega arith, (omega arith, (omega arith, (omega arith, (omega arith, (omega arith, tt)))))),
    ),
  ),
)

module _ (fallback : Fallback) where
  -- The nine lists, and the sizes of the blocks in use, whose sum is counted modulo 2 ^ 64.
  pub record Counts (a : Allocator fallback) (sizes : List ℕ) : Type 0 where
    pub lists : length a.list_heads ≡ 9
    pub count : a.requested_bytes ≡ sum sizes % 2 ^ 64

  -- Either null is given and nothing more is counted, or a block and its size is.
  pub record CountsBlock (a : Allocator fallback) (sizes : List ℕ) (layout : Layout)
      (result : Option (Allocator fallback × Option ℕ)) : Type 0 where
    pub after : Allocator fallback
    pub pointer : Option ℕ
    pub returns : result ≡ some (after, pointer)
    pub counts :
        ((pointer ≡ none) × Counts after sizes)
        ⊎ ((ptr : ℕ) × (pointer ≡ some ptr) × Counts after (layout.size ∷ sizes))

  -- The allocator before it counts, and the pointer.
  pub record Served (a : Allocator fallback) (result : Option (Allocator fallback × Option ℕ))
      : Type 0 where
    pub served : Allocator fallback
    pub pointer : Option ℕ
    pub returns : result ≡ some (served, pointer)
    pub lists : length served.list_heads ≡ 9
    pub same_count : served.requested_bytes ≡ a.requested_bytes

  alloc_listed-Served :
      (a : Allocator fallback) (i : ℕ) (head : List ℕ)
      → length a.list_heads ≡ 9
      → i < 9
      → Served a (alloc_listed fallback a i head)
  unfolding alloc_listed fallback_alloc
  alloc_listed-Served a i [] h below =
      let (size, e) = get_elem?_of_lt block_sizes i below in
      record {
        served = record a {
          fallback_allocator =
              (fallback.allocate_first_fit a.fallback_allocator
                (record { size = size; align = size })).0;
        };
        pointer =
            (fallback.allocate_first_fit a.fallback_allocator
              (record { size = size; align = size })).1;
        returns = rw e refl;
        lists = h;
        same_count = refl;
      }
  alloc_listed-Served a i (node ∷ next) h below = record {
    served = record a { list_heads = set a.list_heads i next };
    pointer = some node;
    returns = rw (store-eq_some a.list_heads i next (omega arith)) refl;
    lists = length-set a.list_heads i next ∙ h;
    same_count = refl;
  }

  alloc_class-Served :
      (a : Allocator fallback) (layout : Layout)
      → length a.list_heads ≡ 9
      → Served a (alloc_class fallback a layout (list_index layout))
  unfolding alloc_class fallback_alloc
  alloc_class-Served a layout h = elim (list_index-cases layout) [
    | inl (n, _) ↦ record {
      served = record a {
        fallback_allocator = (fallback.allocate_first_fit a.fallback_allocator layout).0;
      };
      pointer = (fallback.allocate_first_fit a.fallback_allocator layout).1;
      returns = rw n refl;
      lists = h;
      same_count = refl;
    }
    | inr (i, n, below, _, l) ↦
        let (head, e) = get_elem?_of_lt a.list_heads i (omega arith) in
        let s = alloc_listed-Served a i head h below in
        record {
          served = s.served;
          pointer = s.pointer;
          returns = rw n (rw e s.returns);
          lists = s.lists;
          same_count = s.same_count;
        }
  ]

  counted :
      (a : Allocator fallback) (sizes : List ℕ) (layout : Layout) (b : Allocator fallback)
      (pointer : Option ℕ)
      → Counts a sizes
      → length b.list_heads ≡ 9
      → b.requested_bytes ≡ a.requested_bytes
      → ((pointer ≡ none) × Counts (count_up fallback b layout pointer) sizes)
        ⊎ ((ptr : ℕ) × (pointer ≡ some ptr)
            × Counts (count_up fallback b layout pointer) (layout.size ∷ sizes))
  counted a sizes layout b none c h e = inl (refl, record { lists = h; count = e ∙ c.count })
  counted a sizes layout b (some ptr) c h e =
      let k = c.count in inr (ptr, refl, record { lists = h; count = omega arith })

  -- Whatever the heap of the crate does, `alloc` never panics: it gives null, or a block whose size is
  -- counted.
  pub alloc-CountsBlock :
      (a : Allocator fallback) (sizes : List ℕ) (layout : Layout)
      → Counts a sizes
      → CountsBlock a sizes layout (alloc fallback a layout)
  unfolding alloc
  alloc-CountsBlock a sizes layout c =
      let s = alloc_class-Served a layout c.lists in
      record {
        after = count_up fallback s.served layout s.pointer;
        pointer = s.pointer;
        returns = rw s.returns refl;
        counts = counted a sizes layout s.served s.pointer c s.lists s.same_count;
      }

  uncounted :
      (a : Allocator fallback) (xs ys : List ℕ) (size : ℕ)
      → size < 2 ^ 64
      → a.requested_bytes ≡ sum (xs ++ size ∷ ys) % 2 ^ 64
      → (a.requested_bytes + 2 ^ 64 - size) % 2 ^ 64 ≡ sum (xs ++ ys) % 2 ^ 64
  uncounted a xs ys size h c = omega (arith, sum-append xs (size ∷ ys), sum-append xs ys)

  -- Giving a block back never panics where its pointer is not null. Its size is no longer counted, and
  -- if its layout has a size class, the next block of that class is this one, and the lists are then
  -- as they were.
  pub dealloc-alloc :
      (a : Allocator fallback) (xs ys : List ℕ) (ptr : ℕ) (layout : Layout)
      → Counts a (xs ++ layout.size ∷ ys)
      → layout.size < 2 ^ 64
      → 0 < ptr
      → (b : Allocator fallback) × (dealloc fallback a ptr layout ≡ some b)
        × Counts b (xs ++ ys)
        × ((i : ℕ) (next : Layout)
            → list_index layout ≡ some i
            → list_index next ≡ some i
            → (c : Allocator fallback) × (alloc fallback b next ≡ some (c, some ptr))
              × (c.list_heads ≡ a.list_heads))
  unfolding dealloc dealloc_class alloc alloc_class alloc_listed
  dealloc-alloc a xs ys ptr layout h small pos =
      let count = uncounted a xs ys layout.size small h.count in
      let k = h.lists in
      elim (list_index-cases layout) [
        | inl (n, _) ↦ (
          record (count_down fallback a layout) {
            fallback_allocator = fallback.deallocate a.fallback_allocator ptr layout;
          },
          rw n (rw (lt→ltb 0 ptr pos) refl),
          record { lists = h.lists; count = count },
          λ i next e _. absurd cc,
        )
        | inr (i, n, below, _, l) ↦
            let (head, e) = get_elem?_of_lt a.list_heads i (omega arith) in
            let (size, f) = get_elem?_of_lt block_sizes i below in
            let big = All-get_elem? (λ s. 8 ≤ s) block_sizes i size sizes_big f in
            let heads = set a.list_heads i (ptr ∷ head) in
            let inside : i < length a.list_heads = omega arith in
            let b : Allocator fallback = record (count_down fallback a layout) {
              list_heads = heads;
            } in
            (
              b,
              rw n (
                  rw e (
                    rw f (
                      rw (le→leb 8 size big)
                        (rw (store-eq_some a.list_heads i (ptr ∷ head) inside) refl)))),
              record { lists = length-set a.list_heads i (ptr ∷ head) ∙ h.lists; count = count },
              λ j next ej en.
                  let same : i ≡ j = cc in
                  let at_i : list_index next ≡ some i = en ∙ ap some (sym same) in
                  let top = get_elem?-set_self a.list_heads i (ptr ∷ head) inside in
                  let room : i < length heads =
                    omega (arith, length-set a.list_heads i (ptr ∷ head)) in
                  (
                    count_up fallback (record b { list_heads = set heads i head }) next (some ptr),
                    rw at_i (rw top (rw (store-eq_some heads i head room) refl)),
                    set_back a.list_heads i (ptr ∷ head) head e,
                  ),
            )
      ]
