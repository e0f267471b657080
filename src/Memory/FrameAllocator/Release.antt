-- ===== src/Memory/FrameAllocator/Release.antt =====
-- Giving frames back, the purpose table, and taking over the firmware's boot-services memory.
use aion_so.Base.{
  ℕ, zero, suc, ◌+◌, ◌-◌, Bool, true, false, not, ◌&&◌, Option, none, some, List, [], ◌∷◌,
  if◌then◌else◌, leb, ◌==◌, length, set, min, add64,
}
use aion_so.Hal.Frame.{PhysFrame, number}
use aion_so.Hal.MemoryMap.{MemoryRegion, MemoryRegionKind, is_kind, iter}
use aion_so.Memory.FrameAllocator.BitWords.{bit, set_bit}
use aion_so.Memory.FrameAllocator.Regions.{inward_frames, Interval}
use aion_so.Memory.FrameAllocator.Purposes.{FramePurpose, to_byte, is_purpose}
use aion_so.Memory.FrameAllocator.{
  Allocator, not_managed, not_allocated, wrong_purpose, Result, ok, err, covered_frames, frame_at,
  manages, purpose_of, set_purpose,
}

unfoldable pub deallocate_unchecked : Allocator → PhysFrame → Result × Allocator
unfolding set_purpose
deallocate_unchecked a f =
    if not (manages a f)
    then (err not_managed, a)
    else if not (bit a.bitmap (number f))
    then (err not_allocated, a)
    else (let freed = record a { bitmap = set_bit a.bitmap (number f) false } in
        let unlabelled = set_purpose freed f none in
        (ok, record unlabelled { free = add64 unlabelled.free 1 }))

-- `self.purposes.is_some() && actual != Some(purpose)`
unfoldable pub mislabelled : Allocator → FramePurpose → Option FramePurpose → Bool
mislabelled a purpose actual = elim a.purposes [
  | none ↦ false
  | some _ ↦ not (elim actual [ none ↦ false | some p ↦ is_purpose p purpose ])
]

unfoldable pub deallocate_as : Allocator → PhysFrame → FramePurpose → Result × Allocator
unfolding mislabelled
deallocate_as a f purpose =
    if mislabelled a purpose (purpose_of a f)
    then (err (wrong_purpose purpose (purpose_of a f)), a)
    else deallocate_unchecked a f

-- The byte that `with_purposes` writes for a frame.
unfoldable pub first_byte : Allocator → ℕ → ℕ
first_byte a n = if manages a (frame_at n) && bit a.bitmap n then to_byte FramePurpose.boot else 0

unfoldable pub fill_table : ℕ → ℕ → Allocator → List ℕ → List ℕ
unfolding first_byte
fill_table zero n a table = table
fill_table (suc k) n a table = fill_table k (n + 1) a (set table n (first_byte a n))

-- `none` is the assertion that the table covers every frame.
unfoldable pub with_purposes : Allocator → List ℕ → Option Allocator
unfolding fill_table
with_purposes a table =
    if leb (covered_frames a) (length table)
    then some (record a { purposes = some (fill_table (covered_frames a) 0 a table) })
    else none

count_byte : ℕ → List ℕ → ℕ
count_byte byte [] = 0
count_byte byte (b ∷ bs) = (if b == byte then 1 else 0) + count_byte byte bs

pub frames_for : Allocator → FramePurpose → ℕ
unfolding count_byte
frames_for a purpose = elim a.purposes [
  | none ↦ 0
  | some table ↦ count_byte (to_byte purpose) table
]

-- One frame of the loops of `reclaim_boot_services`: the bitmap and the count go on.
unfoldable pub reclaim_frame : Allocator → ℕ → ℕ → Allocator × ℕ
reclaim_frame a n added =
    if manages a (frame_at n) && bit a.bitmap n
    then (record a { bitmap = set_bit a.bitmap n false }, add64 added 1)
    else (a, added)

unfoldable pub reclaim_frames : ℕ → ℕ → Allocator × ℕ → Allocator × ℕ
unfolding reclaim_frame
reclaim_frames zero n (a, added) = (a, added)
reclaim_frames (suc k) n (a, added) = reclaim_frames k (n + 1) (reclaim_frame a n added)

unfoldable pub reclaim_interval : ℕ → Interval → Allocator × ℕ → Allocator × ℕ
unfolding reclaim_frames
reclaim_interval covered (first, end') s = reclaim_frames (min end' covered - first) first s

unfoldable pub reclaim_regions : ℕ → List MemoryRegion → Allocator × ℕ → Allocator × ℕ
unfolding reclaim_interval
reclaim_regions covered [] s = s
reclaim_regions covered (r ∷ rs) s = reclaim_regions covered rs (
    if is_kind r.kind MemoryRegionKind.boot_services
    then reclaim_interval covered (inward_frames r) s
    else s)

-- The allocator after, and how many frames were added.
unfoldable pub reclaim_boot_services : Allocator → Allocator × ℕ
unfolding reclaim_regions
reclaim_boot_services a =
    if a.boot_services_reclaimed
    then (a, 0)
    else (let (b, added) =
          reclaim_regions (covered_frames a) (iter a.map)
            (record a { boot_services_reclaimed = true }, 0) in
        (record b { free = add64 b.free added }, added))
