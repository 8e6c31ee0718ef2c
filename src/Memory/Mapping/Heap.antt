-- ===== src/Memory/Mapping/Heap.antt =====
-- What `init_heap` maps.
use crab_os.Prelude.{
  ℕ, zero, suc, ◌+◌, ◌*◌, ◌/◌, ◌<◌, ◌≡◌, refl, inl, inr, Option, none, some, arith, Option-cases,
}
use crab_os.System.{heap_size}
use crab_os.Allocator.Blocks.{Fallback, Allocator}
use crab_os.Allocator.Blocks
use crab_os.Memory.{Paging, align_down, heap_start, heap_flags, map_heap, init_heap}
use crab_os.Memory.Mapping.{Laws, MapsTo, Extends, map_to-cases, map_to-Extends}

module _ (paging : Paging) (laws : Laws paging) where
  -- The heap's pages are mapped to some frames, writable.
  abbrev pub AllBacked : ℕ → ℕ → paging.State → Option paging.Error → Type 0
  AllBacked page count s none =
      (i : ℕ) → i < count → (frame : ℕ) × MapsTo paging laws (page + i * 4096) frame heap_flags s
  AllBacked page count s (some error) = Unit

  record MapsHeap (page count : ℕ) (s : paging.State) : Type 0 where
    pub after : paging.State
    pub error : Option paging.Error
    pub returns : map_heap paging count page s ≡ some (after, error)
    pub backed : AllBacked page count after error
    pub extends : Extends paging laws s after

  first_backed :
      (page count frame : ℕ) (s : paging.State) (error : Option paging.Error)
      → MapsTo paging laws page frame heap_flags s
      → AllBacked (page + 4096) count s error
      → AllBacked page (suc count) s error
  first_backed page count frame s none here rest = backed
    where
      backed : AllBacked page (suc count) s none
      backed zero h = (frame, rw (let e : page + 0 * 4096 ≡ page = omega arith in e) here)
      backed (suc i) h =
          let e : page + 4096 + i * 4096 ≡ page + suc i * 4096 = omega arith in
          let (frame', mapped) = rest i (omega arith) in (frame', rw e at mapped)
  first_backed page count frame s (some error) here rest = tt

  map_heap-Maps : (count page : ℕ) (s : paging.State) → MapsHeap page count s
  unfolding map_heap
  map_heap-Maps zero page s = record {
    after = s;
    error = none;
    returns = refl;
    backed = λ i h. absurd (omega arith);
    extends = λ other target e. e;
  }
  map_heap-Maps (suc count) page s =
      let s1 = (paging.allocate_frame s).0 in
      elim (Option-cases (paging.allocate_frame s).1) [
        | inl e ↦ record {
          after = s1;
          error = some paging.allocation_failed;
          returns = rw e refl;
          backed = tt;
          extends = λ other target q. laws.keeps_frames other s target q;
        }
        | inr (frame, e) ↦ elim (map_to-cases paging laws page frame heap_flags s1) [
          | inl (s2, e') ↦
              let r = map_heap-Maps count (page + 4096) s2 in
              let here =
                r.extends page (frame, heap_flags) (laws.maps page frame heap_flags s1 s2 e') in
              record {
                after = r.after;
                error = r.error;
                returns = rw e (rw e' r.returns);
                backed = first_backed page count frame r.after r.error here r.backed;
                extends = λ other target q. r.extends other target (
                    map_to-Extends paging laws page frame heap_flags s1 s2 none e' other target
                      (laws.keeps_frames other s target q));
              }
          | inr (s2, x, e') ↦ record {
            after = s2;
            error = some x;
            returns = rw e (rw e' refl);
            backed = tt;
            extends = λ other target q.
                map_to-Extends paging laws page frame heap_flags s1 s2 (some x) e' other target
                  (laws.keeps_frames other s target q);
          }
        ]
      ]

  -- Every byte of the heap is on a page that is mapped.
  abbrev pub Backed : paging.State → Option paging.Error → Type 0
  Backed s none =
      (k : ℕ)
      → k < heap_size
      → (frame : ℕ) × MapsTo paging laws (align_down (heap_start + k)) frame heap_flags s
  Backed s (some error) = Unit

  -- The allocator after `init_heap`.
  abbrev pub Given :
      (fallback : Fallback) → Allocator fallback → Option paging.Error → Allocator fallback
  Given fallback allocator none = Blocks.init fallback allocator heap_start heap_size
  Given fallback allocator (some error) = allocator

  pub record MapsAll (fallback : Fallback) (allocator : Allocator fallback) (s : paging.State)
      : Type 0 where
    pub after : paging.State
    pub error : Option paging.Error
    pub returns :
        init_heap paging fallback allocator s
        ≡ some (after, (error, Given fallback allocator error))
    pub backed : Backed after error

  Backed-bytes :
      (s : paging.State) (error : Option paging.Error)
      → AllBacked heap_start 25 s error
      → Backed s error
  Backed-bytes s none all = λ k h.
      let (frame, mapped) = all (k / 4096) (omega arith) in
      let page : heap_start + k / 4096 * 4096 ≡ align_down (heap_start + k) = omega arith in
      (frame, rw page at mapped)
  Backed-bytes s (some error) all = tt

  -- With a mapper as documented, `init_heap` panics nowhere. The allocator gets the heap exactly where
  -- there was no error, and then each of the heap's 102,400 bytes is on a page that is mapped to a
  -- frame, present and writable.
  pub init_heap-Maps :
      (fallback : Fallback) (allocator : Allocator fallback) (s : paging.State)
      → MapsAll fallback allocator s
  unfolding init_heap
  init_heap-Maps fallback allocator s =
      let r = map_heap-Maps 25 heap_start s in
      elim (Option-cases r.error) [
        | inl e ↦ record {
          after = r.after;
          error = r.error;
          returns = rw r.returns (rw e refl);
          backed = Backed-bytes r.after r.error r.backed;
        }
        | inr (x, e) ↦ record {
          after = r.after;
          error = r.error;
          returns = rw r.returns (rw e refl);
          backed = Backed-bytes r.after r.error r.backed;
        }
      ]
