-- ===== src/Memory/FreeList/Tests.antt =====
-- A heap of four granules with two holes: requests, a block given back, and the check.
use aion_so.Base.{
  ◌-◌, length, ℕ, ◌+◌, ◌≤◌, ◌<◌, ◌≡◌, ◌⊎◌, refl, ◌&&◌, none, some, List, [], ◌∷◌, ltb, leb, arith,
}
use aion_so.Memory.FreeList.{
  Hole, Heap, Layout, granule, empty, init, allocate, deallocate, block_size, update, is_block,
}
use aion_so.Memory.FreeList.Holes.{Extent, is_free, IsValid}
use aion_so.Memory.FreeList.Allocate.{Allocated, heap_allocate_lem}
use aion_so.Memory.FreeList.Free.{InHeap, heap_deallocate_lem}
use aion_so.Memory.FreeList.Releasing.{Released}
use aion_so.Memory.FreeList.RoundTrip.{Restored, allocate-heap_deallocate}
use aion_so.Memory.FreeList.Init.{init_lem}
use aion_so.Memory.FreeList.Check.{HeapCorruption, Fault, ok, err, check}
use aion_so.Memory.FreeList.Checks.{largest_of}
use aion_so.Memory.FreeList.Verdict.{check_lem}

abbrev blank : ℕ → Hole
blank a = record { size = 0; next = 0 }

init_lem_example :
    (h : Heap) × (holes : List Extent) × (init (empty blank) 0x1004 0x4c ≡ some h)
    × IsValid h holes
    × (0x1004 ≤ h.start)
    × (h.start < 0x1004 + granule)
    × ((h.end' ≤ 0x1004 + 0x4c) ⊎ (h.end' ≡ h.start))
    × (0x1004 + 0x4c < h.end' + granule)
    × ((x : ℕ) → is_free holes x ≡ (leb h.start x && ltb x h.end'))
init_lem_example = init_lem blank 0x1004 0x4c (omega arith) (omega arith)

-- Two holes of a granule each, with a block between them.
abbrev two_holes : Heap
two_holes = record {
  base = 0x1004;
  start = 0x1010;
  end' = 0x1050;
  head = 0x1010;
  free = 32;
  memory =
      update (update blank 0x1010 (record { size = 16; next = 0x1030 })) 0x1030
        (record { size = 16; next = 0 });
}

abbrev holes : List Extent
holes = record { addr = 0x1010; size = 16 } ∷ record { addr = 0x1030; size = 16 } ∷ []

abbrev two_holes-IsValid : IsValid two_holes holes
two_holes-IsValid = record {
  region = record {
    start_aligned = refl;
    end_aligned = refl;
    not_null = omega arith;
    ends = omega arith;
    fits = omega arith;
  };
  chain = (refl, refl, (refl, refl, refl));
  ordered = (
    omega arith,
    refl,
    refl,
    omega arith,
    omega arith,
    (omega arith, refl, refl, omega arith, omega arith, tt),
  );
  counted = refl;
}

abbrev small : Layout
small = record { size = 10; align = 8 }

heap_allocate_lem_example : Allocated two_holes holes small (allocate two_holes small)
heap_allocate_lem_example = heap_allocate_lem two_holes holes small two_holes-IsValid (3, refl)

heap_deallocate_lem_example :
    ((deallocate two_holes 0x1020 small ≡ none) × (block_size small ≡ none))
    ⊎ ((size : ℕ) × (block_size small ≡ some size)
        × (((deallocate two_holes 0x1020 small ≡ none) × (InHeap two_holes 0x1020 size → ⊥))
            ⊎ InHeap two_holes 0x1020 size
              × Released two_holes holes 0x1020 size (deallocate two_holes 0x1020 small)))
heap_deallocate_lem_example = heap_deallocate_lem two_holes holes 0x1020 small two_holes-IsValid

-- The list after the first hole is taken.
abbrev one_hole : Heap
one_hole = record two_holes { head = 0x1030; free = 16 }

allocate-heap_deallocate_example : Restored two_holes holes (deallocate one_hole 0x1010 small)
unfolding allocate block_size
allocate-heap_deallocate_example =
    allocate-heap_deallocate two_holes one_hole holes small 0x1010 two_holes-IsValid (3, refl) refl

-- The block joins both holes.
joins_both :
    deallocate two_holes 0x1020 small
    ≡ some (record two_holes {
      free = 48;
      memory = update two_holes.memory 0x1010 (record { size = 48; next = 0 });
    })
unfolding deallocate block_size is_block
joins_both = refl

double_free_panics : deallocate two_holes 0x1030 small ≡ none
unfolding deallocate block_size is_block
double_free_panics = refl

check_lem_example :
    ((e : HeapCorruption) × (check two_holes ≡ some (err e))
      × ((hs : List Extent) → IsValid two_holes hs → ⊥))
    ⊎ ((hs : List Extent) × IsValid two_holes hs
        × (check two_holes
            ≡ some (
                ok (record {
                  size = two_holes.end' - two_holes.start;
                  free = two_holes.free;
                  holes = length hs;
                  largest_hole = largest_of hs;
                }))))
check_lem_example = check_lem two_holes two_holes-IsValid.region

-- Holes that touch without having been merged are found.
unmerged_found :
    check (record two_holes {
      memory =
          update
            (update blank 0x1010 (record { size = 32; next = 0x1030 }))
            0x1030
            (record { size = 16; next = 0 });
    })
    ≡ some (err (record { what = Fault.out_of_order; at = 0x1030 }))
unfolding check
unmerged_found = refl
