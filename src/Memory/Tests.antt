-- ===== src/Memory/Tests.antt =====
-- A frame allocator of one word of bitmap, over a map with memory of the firmware in the middle.
use aion_so.Base.{ℕ, ◌*◌, ◌<◌, ◌≡◌, ◌⊎◌, refl, true, false, not, none, some, [], ◌∷◌, length, arith}
use aion_so.Hal.Addr.{phys}
use aion_so.Hal.Frame.{PhysFrame}
use aion_so.Hal.MemoryMap.{MemoryRegion, MemoryRegionKind, MemoryMap, no_attributes}
use aion_so.Memory.FrameAllocator.{Allocator, new, manages, frame_at, allocate, allocate_for}
use aion_so.Memory.FrameAllocator.BitWords.{Bitmap, bit}
use aion_so.Memory.FrameAllocator.Purposes.{FramePurpose}
use aion_so.Memory.FrameAllocator.Invariant.{IsValid, new_lem}
use aion_so.Memory.FrameAllocator.Allocate.{Took, allocate_lem}
use aion_so.Memory.FrameAllocator.Freeing.{Answer, deallocate_as_lem}
use aion_so.Memory.FrameAllocator.Deallocate.{RoundTrip, allocate-deallocate}
use aion_so.Memory.FrameAllocator.Release.{reclaim_boot_services}
use aion_so.Memory.FrameAllocator.Reclaim.{Reclaimed, reclaim_lem}

abbrev region : ℕ → ℕ → MemoryRegionKind → MemoryRegion
region start pages kind = record {
  start_phys_addr = phys start;
  page_count = pages;
  kind = kind;
  attributes = no_attributes;
}

abbrev small_map : MemoryMap
small_map = record {
  regions =
      region 0x1000 15 MemoryRegionKind.usable
      ∷ region 0x1_0000 16 MemoryRegionKind.boot_services
      ∷ region 0x2_0000 32 MemoryRegionKind.usable
      ∷ [];
  len = 3;
  truncated = false;
}

abbrev storage : Bitmap
storage = 0 ∷ []

new_lem_example :
    let a = new storage small_map in
    IsValid a
    × (length a.bitmap ≡ length storage)
    × ((g : ℕ) → g < length storage * 64 → bit a.bitmap g ≡ not (manages a (frame_at g)))
new_lem_example = new_lem storage small_map (omega arith)

abbrev pub fresh : Allocator
fresh = new storage small_map

allocate_lem_example :
    ((allocate fresh ≡ (none, fresh))
      × (fresh.free ≡ 0)
      × ((g : ℕ) → g < length fresh.bitmap * 64 → bit fresh.bitmap g ≡ true))
    ⊎ ((f : PhysFrame) × (a' : Allocator) × (allocate fresh ≡ (some f, a'))
        × Took fresh f a'
        × IsValid a')
allocate_lem_example = allocate_lem fresh new_lem_example.0

deallocate_as_lem_example : Answer fresh (frame_at 1) FramePurpose.heap
deallocate_as_lem_example = deallocate_as_lem fresh (frame_at 1) FramePurpose.heap new_lem_example.0

allocate-deallocate_example :
    RoundTrip fresh FramePurpose.heap (allocate_for fresh FramePurpose.heap)
unfolding new
allocate-deallocate_example = allocate-deallocate fresh FramePurpose.heap new_lem_example.0 tt

reclaim_lem_example : Reclaimed fresh (reclaim_boot_services fresh)
unfolding new
reclaim_lem_example = reclaim_lem fresh new_lem_example.0 refl
