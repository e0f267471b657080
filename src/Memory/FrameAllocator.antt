-- ===== src/Memory/FrameAllocator.antt =====
-- kernel/src/memory/frame_allocator.rs: the bitmap of physical frames. One bit per frame, set for
-- a frame that is withheld or handed out.
pub mod BitWords
pub mod BitLaws
pub mod Regions
pub mod Purposes
pub mod Release
pub mod Marking
pub mod Invariant
pub mod Search
pub mod Allocate
pub mod Labels
pub mod Freeing
pub mod Deallocate
pub mod Sweep
pub mod Reclaim
use BitWords.{Bitmap, bit, set_bit, all_ones, free_words, Found, scan}
use Regions.{inward_frames, outward_frames, Interval, holds}
use Purposes.{FramePurpose, to_byte, from_byte}
use aion_so.Base.{
  ℕ, zero, suc, ◌+◌, ◌-◌, ◌≤◌, Bool, true, false, not, ◌&&◌, ◌||◌, Option, none, some, List, [],
  ◌∷◌, if◌then◌else◌, ltb, leb, ◌==◌, length, get_elem?, get_or, set, any, min, max, add64, mul64,
  sub64,
}
use aion_so.Hal.Addr.{phys}
use aion_so.Hal.Frame.{frame_size, PhysFrame, number, containing_address}
use aion_so.Hal.MemoryMap.{MemoryMap, MemoryRegion, MemoryRegionKind, is_kind, iter}

pub data DeallocError : Type 0 where
  not_managed : DeallocError
  not_allocated : DeallocError
  wrong_purpose : FramePurpose → Option FramePurpose → DeallocError

pub data Result : Type 0 where
  ok : Result
  err : DeallocError → Result

-- `bitmap` and the table in `purposes` are borrowed slices, owned by the allocator while it lives.
pub record Allocator : Type 0 where
  pub bitmap : Bitmap
  pub map : MemoryMap
  pub boot_services_reclaimed : Bool
  pub purposes : Option (List ℕ)
  pub free : ℕ
  pub next_word : ℕ
  pub uncovered : ℕ

unfoldable pub covered_frames : Allocator → ℕ
covered_frames a = mul64 (length a.bitmap) 64

-- `PhysFrame::containing_address(PhysAddr::new(n * FRAME_SIZE))`
unfoldable pub frame_at : ℕ → PhysFrame
frame_at n = containing_address (phys (mul64 n frame_size))

unfoldable pub allocatable : Bool → MemoryRegionKind → Bool
allocatable reclaimed kind =
    is_kind kind MemoryRegionKind.usable
    || (reclaimed && is_kind kind MemoryRegionKind.boot_services)

-- The two questions that `manages` puts to the regions of the map.
unfoldable pub offered : Bool → ℕ → MemoryRegion → Bool
unfolding allocatable
offered reclaimed n r = allocatable reclaimed r.kind && holds (inward_frames r) n

unfoldable pub withheld : Bool → ℕ → MemoryRegion → Bool
unfolding allocatable
withheld reclaimed n r = not (allocatable reclaimed r.kind) && holds (outward_frames r) n

unfoldable pub manages_number : Allocator → ℕ → Bool
unfolding covered_frames
manages_number a n =
    not (n == 0)
    && (ltb n (covered_frames a)
        && (any (offered a.boot_services_reclaimed n) (iter a.map)
            && not (any (withheld a.boot_services_reclaimed n) (iter a.map))))

pub manages : Allocator → PhysFrame → Bool
unfolding manages_number
manages a f = manages_number a (number f)

-- `for frame in first..end { set_bit(frame, value) }`, by the rounds left.
unfoldable pub mark_frames : ℕ → ℕ → Bool → Bitmap → Bitmap
mark_frames zero frame value b = b
mark_frames (suc n) frame value b = mark_frames n (frame + 1) value (set_bit b frame value)

unfoldable pub mark : Bool → ℕ → Interval → Bitmap → Bitmap
unfolding mark_frames
mark value covered (first, end') b = mark_frames (min end' covered - first) first value b

-- The first pass of `new`: what usable regions hold whole is free.
unfoldable pub offer_pass : ℕ → List MemoryRegion → Bitmap → Bitmap
offer_pass covered [] b = b
offer_pass covered (r ∷ rs) b =
    offer_pass covered rs
      (if is_kind r.kind MemoryRegionKind.usable then mark false covered (inward_frames r) b else b)

-- The second pass, so that withholding wins over any overlap.
unfoldable pub withhold_pass : ℕ → List MemoryRegion → Bitmap → Bitmap
withhold_pass covered [] b = b
withhold_pass covered (r ∷ rs) b =
    withhold_pass covered rs
      (if is_kind r.kind MemoryRegionKind.usable then b else mark true covered (outward_frames r) b)

uncovered_of : ℕ → Interval → ℕ
uncovered_of covered (first, end') = end' - max first covered

count_uncovered : ℕ → List MemoryRegion → ℕ → ℕ
unfolding uncovered_of
count_uncovered covered [] n = n
count_uncovered covered (r ∷ rs) n = count_uncovered covered rs (
    if is_kind r.kind MemoryRegionKind.usable
    then add64 n (uncovered_of covered (inward_frames r))
    else n)

-- What `new` writes into the storage, of which only the length matters.
unfoldable pub initial_bitmap : ℕ → MemoryMap → Bitmap
unfolding offer_pass withhold_pass
initial_bitmap words map =
    let covered = mul64 words 64 in
    let passed =
      withhold_pass covered (iter map) (offer_pass covered (iter map) (all_ones words)) in
    if ltb 0 covered then set_bit passed 0 true else passed

unfoldable pub new : Bitmap → MemoryMap → Allocator
unfolding initial_bitmap count_uncovered
new storage map = record {
  bitmap = initial_bitmap (length storage) map;
  map = map;
  boot_services_reclaimed = false;
  purposes = none;
  free = free_words (initial_bitmap (length storage) map);
  next_word = 0;
  uncovered = count_uncovered (mul64 (length storage) 64) (iter map) 0;
}

unfoldable pub adopt : Bitmap → MemoryMap → Bool → Allocator
adopt storage map reclaimed = record {
  bitmap = storage;
  map = map;
  boot_services_reclaimed = reclaimed;
  purposes = none;
  free = free_words storage;
  next_word = 0;
  uncovered = 0;
}

unfoldable pub purpose_of : Allocator → PhysFrame → Option FramePurpose
purpose_of a f = elim a.purposes [
  | none ↦ none
  | some table ↦ elim (get_elem? table (number f)) [ none ↦ none | some byte ↦ from_byte byte ]
]

byte_of : Option FramePurpose → ℕ
byte_of none = 0
byte_of (some p) = to_byte p

-- A frame past the end of the table is left alone.
unfoldable pub set_purpose : Allocator → PhysFrame → Option FramePurpose → Allocator
unfolding byte_of
set_purpose a f purpose = elim a.purposes [
  | none ↦ a
  | some table ↦ record a { purposes = some (set table (number f) (byte_of purpose)) }
]

unfoldable pub is_held : Allocator → PhysFrame → Bool
unfolding manages
is_held a f = manages a f && bit a.bitmap (number f)

unfoldable pub label : Allocator → PhysFrame → FramePurpose → Allocator × Bool
unfolding is_held set_purpose
label a f purpose = if is_held a f then (set_purpose a f (some purpose), true) else (a, false)

-- The allocator once the search has found a bit, and the frame of that bit.
unfoldable pub taken : Allocator → Found → Allocator
taken a found = record a { bitmap = found.after; free = sub64 a.free 1; next_word = found.index }

unfoldable pub taken_frame : Found → PhysFrame
taken_frame found = frame_at (add64 (mul64 found.index 64) found.position)

unfoldable pub allocate : Allocator → Option PhysFrame × Allocator
unfolding taken taken_frame
allocate a =
    if a.free == 0 then (none, a) else elim (scan (length a.bitmap) a.bitmap a.next_word 0) [
      | none ↦ (none, a)
      | some found ↦ (some (taken_frame found), taken a found)
    ]

unfoldable pub allocate_for : Allocator → FramePurpose → Option PhysFrame × Allocator
unfolding allocate set_purpose
allocate_for a purpose =
    let (found, a') = allocate a in
    elim found [ none ↦ (none, a') | some f ↦ (some f, set_purpose a' f (some purpose)) ]

-- The `FrameAllocator` implementation, for architecture code.
unfoldable pub allocate_frame : Allocator → Option PhysFrame × Allocator
unfolding allocate_for
allocate_frame a = allocate_for a FramePurpose.page_table
