-- ===== src/Allocator/FreeList/NoOverlap.antt =====
-- The free-list allocator never gives a byte out twice.
use crab_os.Prelude.{
  ℕ, ◌+◌, ◌-◌, ◌%◌, ◌^◌, ◌≤◌, ◌≡◌, refl, subst, ◌⊎◌, inl, inr, true, Bool-cases, Option, none, some,
  List, ◌∷◌, ◌++◌, All, ltb, lt→ltb, le→leb, max, sym, ◌<◌, [], arith,
}
use crab_os.Allocator.{Layout, checked_add-eq_some}
use crab_os.Allocator.Region.{
  Region, end_addr, Apart, Pairwise, Across, Part, Part-Apart, All-drop_one, Pairwise-drop_one,
  Across-cons, Across-drop_one,
}
use crab_os.Allocator.FreeList.{node_size, node_align, Found, take_block, alloc, dealloc}
use crab_os.Allocator.FreeList.Find.{Place, Finds, NoRoom, InReach, find_region-cases}
use crab_os.Allocator.FreeList.Sizes.{IsLayout, Sized, size_align-Sized, add_free_region-eq_some}

-- A region that can hold a node at its start, and ends in the address space.
abbrev pub HoldsNode : Region → Type 0
HoldsNode r = (r.start % node_align ≡ 0) × (node_size ≤ r.size) × (end_addr r < 2 ^ 64)

-- No byte is in two free regions, in two blocks in use, or in one of each; and all of them can hold a
-- node and end in the address space.
pub record NoOverlap (free : List Region) (live : List Region) : Type 0 where
  pub nodes : All HoldsNode free
  pub blocks : All HoldsNode live
  pub free_apart : Pairwise free
  pub live_apart : Pairwise live
  pub across : Across live free

-- A block is taken: it is in use, and apart from the others.
pub record Taken (result : Option (List Region × Option ℕ)) (live : List Region) (layout : Layout)
    : Type 0 where
  pub after : List Region
  pub pointer : ℕ
  pub size : ℕ
  pub returns : result ≡ some (after, some pointer)
  pub room : layout.size ≤ size
  pub aligned : pointer % layout.align ≡ 0
  pub holds : NoOverlap after (record { start = pointer; size = size } ∷ live)

split-NoOverlap :
    (xs ys : List Region) (r : Region) (live : List Region) (at size : ℕ)
    → NoOverlap (xs ++ r ∷ ys) live
    → Part (record { start = at; size = size }) r
    → at % 8 ≡ 0
    → 16 ≤ size
    → NoOverlap (xs ++ ys) (record { start = at; size = size } ∷ live)
split-NoOverlap xs ys r live at size h part even big =
    let (n, nodes) = All-drop_one HoldsNode xs ys r h.nodes in
    let last = n.2 in
    let (a, free_apart) = Pairwise-drop_one xs ys r h.free_apart in
    let (l, across) = Across-drop_one live xs ys r h.across in
    let block : Region = record { start = at; size = size } in
    record {
      nodes = nodes;
      blocks = ((even, big, omega arith), h.blocks);
      free_apart = free_apart;
      live_apart = (Part-Apart block r live part l, h.live_apart);
      across = (Part-Apart block r (xs ++ ys) part a, across);
    }

-- The rest of the region behind the block is free again.
rest-NoOverlap :
    (xs ys : List Region) (r : Region) (live : List Region) (at size rest : ℕ)
    → NoOverlap (xs ++ r ∷ ys) live
    → r.start ≤ at
    → at + size + rest ≡ end_addr r
    → at % 8 ≡ 0
    → size % 8 ≡ 0
    → 16 ≤ size
    → 16 ≤ rest
    → NoOverlap
        (record { start = at + size; size = rest } ∷ (xs ++ ys))
        (record { start = at; size = size } ∷ live)
rest-NoOverlap xs ys r live at size rest h from ends even whole big room =
    let behind : Region = record { start = at + size; size = rest } in
    let block : Region = record { start = at; size = size } in
    let part : Part behind r = (omega arith, omega arith) in
    let s = split-NoOverlap xs ys r live at size h (omega arith, omega arith) even big in
    let (n, _) = All-drop_one HoldsNode xs ys r h.nodes in
    let last = n.2 in
    let (a, _) = Pairwise-drop_one xs ys r h.free_apart in
    let (l, _) = Across-drop_one live xs ys r h.across in
    record {
      nodes = ((omega arith, room, omega arith), s.nodes);
      blocks = s.blocks;
      free_apart = (Part-Apart behind r (xs ++ ys) part a, s.free_apart);
      live_apart = s.live_apart;
      across =
          Across-cons (block ∷ live) (xs ++ ys) behind
            (inr (omega arith), Part-Apart behind r live part l) s.across;
    }

take_block-Taken :
    (free live : List Region) (layout : Layout) (size align : ℕ) (f : Found)
    → NoOverlap free live
    → Sized layout size align
    → Finds free size align f
    → Taken (take_block size f) live layout
unfolding take_block
take_block-Taken free live layout size align f h z s =
    let p = s.place in
    let at = f.alloc_start in
    let (of_layout, even) = z.both at p.aligned in
    let inside = p.inside in
    let ends = p.ends in
    let whole = z.whole in
    let node = z.node in
    let h' : NoOverlap (s.before ++ f.region ∷ s.after) live =
      subst (λ (xs : List Region). NoOverlap xs live) s.split h in
    let others = s.others in
    let last : end_addr f.region < 2 ^ 64 =
      (All-drop_one HoldsNode s.before s.after f.region h'.nodes).0.2 in
    let ended = checked_add-eq_some f.region.start f.region.size last in
    let below = le→leb (at + size) (end_addr f.region) ends in
    let excess = end_addr f.region - (at + size) in
    elim (Bool-cases (ltb 0 excess)) [
      | inl e ↦ record {
        after = record { start = at + size; size = excess } ∷ f.others;
        pointer = at;
        size = size;
        returns = rw (lt→ltb (at + size) (2 ^ 64) p.small) (
            rw ended (
              rw (below, e)
                (rw
                  (add_free_region-eq_some f.others (at + size) excess (omega arith) (rest_room p e)
                    (omega arith))
                  refl)));
        room = z.room;
        aligned = of_layout;
        holds = rw others (
            rest-NoOverlap s.before s.after f.region live at size excess h' inside (omega arith)
              even whole node (rest_room p e));
      }
      | inr e ↦ record {
        after = f.others;
        pointer = at;
        size = size;
        returns = rw (lt→ltb (at + size) (2 ^ 64) p.small) (rw ended (rw (below, e) refl));
        room = z.room;
        aligned = of_layout;
        holds =
            rw others
              (split-NoOverlap s.before s.after f.region live at size h' (omega arith) even node);
      }
    ]
  where
    rest_room :
        Place f.region size align f.alloc_start
        → ltb 0 (end_addr f.region - (f.alloc_start + size)) ≡ true
        → 16 ≤ end_addr f.region - (f.alloc_start + size)
    rest_room p e = let i = p.rest in ground arith

-- Null, and nothing changes: no free region has room for the rounded size.
pub record Refused (free : List Region) (layout : Layout) : Type 0 where
  pub size : ℕ
  pub align : ℕ
  pub rounded : Sized layout size align
  pub returns : alloc free layout ≡ some (free, none)
  pub full : All (NoRoom size align) free

reach_all :
    (align : ℕ) (free : List Region)
    → All HoldsNode free
    → All (λ r. r.start + align < 2 ^ 64) free
    → All (InReach align) free
reach_all align [] n h = tt
reach_all align (r ∷ free) n h = ((n.0.2, h.0), reach_all align free n.1 h.1)

-- Without overlap before, and with the free regions' starts at least an alignment below the end of the
-- address space, `alloc` never panics for a layout whose rounded size fits. It gives null and changes
-- nothing where no free region has room, or a block that is large enough, aligned, and has no byte in
-- common with a block in use or a free region.
pub alloc-Taken :
    (free live : List Region) (layout : Layout)
    → NoOverlap free live
    → IsLayout layout
    → All (λ r. r.start + max layout.align node_align < 2 ^ 64) free
    → Refused free layout ⊎ Taken (alloc free layout) live layout
unfolding alloc
alloc-Taken free live layout h v far =
    let (size, align, z) = size_align-Sized layout v in
    let reach =
      reach_all align free h.nodes
        (subst (λ (a : ℕ). All (λ r. r.start + a < 2 ^ 64) free) (sym z.of_node) far) in
    elim (find_region-cases free size align z.pos reach) [
      | inl (e, full) ↦ inl (record {
        size = size;
        align = align;
        rounded = z;
        returns = rw z.returns (rw e refl);
        full = full;
      })
      | inr (f, e, s) ↦
          inr (rw z.returns (rw e (take_block-Taken free live layout size align f h z s)))
    ]

-- Without overlap before, in regions that end in the address space, giving back a block in use, with
-- the layout that it was asked for with, never panics; its bytes are free, and the other blocks stay
-- in use.
pub dealloc-NoOverlap :
    (free xs ys : List Region) (ptr : ℕ) (layout : Layout) (size align : ℕ)
    → Sized layout size align
    → NoOverlap free (xs ++ record { start = ptr; size = size } ∷ ys)
    → (dealloc free ptr layout ≡ some (record { start = ptr; size = size } ∷ free))
      × NoOverlap (record { start = ptr; size = size } ∷ free) (xs ++ ys)
unfolding dealloc
dealloc-NoOverlap free xs ys ptr layout size align z h =
    let block : Region = record { start = ptr; size = size } in
    let (n, blocks) = All-drop_one HoldsNode xs ys block h.blocks in
    let (a, live_apart) = Pairwise-drop_one xs ys block h.live_apart in
    let (l, across) = All-drop_one (λ r. Apart r free) xs ys block h.across in
    (
      rw z.returns (add_free_region-eq_some free ptr size n.0 n.1 n.2),
      record {
        nodes = (n, h.nodes);
        blocks = blocks;
        free_apart = (l, h.free_apart);
        live_apart = live_apart;
        across = Across-cons (xs ++ ys) free block a across;
      },
    )
