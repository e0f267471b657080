-- ===== src/Memory/FrameAllocator/Regions.antt =====
-- The frames of a region of the memory map, rounded inwards or outwards.
use aion_so.Base.{ℕ, ◌/◌, Bool, ◌&&◌, ltb, leb, saturating_add, saturating_mul, div_ceil}
use aion_so.Hal.Frame.{frame_size}
use aion_so.Hal.MemoryMap.{MemoryRegion}

-- `[first, end)`
abbrev pub Interval : Type 0
Interval = ℕ × ℕ

unfoldable pub region_end : MemoryRegion → ℕ
region_end r = saturating_add r.start_phys_addr.as_u64 (saturating_mul r.page_count frame_size)

unfoldable pub inward_frames : MemoryRegion → Interval
unfolding region_end
inward_frames r = (div_ceil r.start_phys_addr.as_u64 frame_size, region_end r / frame_size)

unfoldable pub outward_frames : MemoryRegion → Interval
unfolding region_end
outward_frames r = (r.start_phys_addr.as_u64 / frame_size, div_ceil (region_end r) frame_size)

-- The closure `contains` of `manages`.
unfoldable pub holds : Interval → ℕ → Bool
holds (first, end') n = leb first n && ltb n end'
