-- ===== src/Paging/Tests.antt =====
-- Page tables with a 1 GiB identity map, and the kernel's frame allocator over 64 frames.
use aion_so.Base.{
  ℕ, Option, List, Bool, Bool-cases, ◌*◌, ◌<◌, ◌≤◌, ◌≡◌, ◌≢◌, ◌⊎◌, refl, sym, ◌∙◌, true, false, not,
  ◌&&◌, none, [], ◌∷◌, length, arith, ◌==◌, if◌then◌else◌, inl, inr,
}
use mathlib.Core.Bool.{xor}
use aion_so.Base.BitCount.{count_zeros, trailing_zeros}
use aion_so.Memory.FrameAllocator.Regions.{inward_frames}
use aion_so.Hal.Addr.{phys}
use aion_so.Hal.Frame.{PhysFrame, containing_address}
use aion_so.Hal.Paging.{kernel_flags, MapError, UnmapError}
use aion_so.Hal.MemoryMap.{MemoryRegionKind, MemoryMap, no_attributes, iter}
use aion_so.Memory.FrameAllocator.{Allocator, new, mark, allocate_frame, manages, frame_at}
use aion_so.Memory.FrameAllocator.BitWords.{bit, set_bit, scan, free_words}
use aion_so.Memory.FrameAllocator.Invariant.{IsValid, new_lem}
use aion_so.Paging.Bits.{IsFrame}
use aion_so.Paging.Entries.{huge, is_set, is_canonical, table_indices, index_at}
use aion_so.Paging.Tree.{Entries, IsTree, links}
use aion_so.Paging.Bitmap.{bitmap_source, FreeFrame, bitmap_promises, IsReady, Given, bitmap_gives}
use aion_so.Paging.Mapping.{IsSound, map_lem}
use aion_so.Paging.Outcomes.{Mapped, Refused}
use aion_so.Paging.Refusing.{Kept}
use aion_so.Paging.Unmapping.{IsSpace, Unmapped, unmap_lem}
use aion_so.Paging.Freeing.{free_lower_half}
use aion_so.Paging.Handing.{given}
use aion_so.Paging.LowerHalf.{lower_tables, Returned, Emptied, free_lower_half_lem}
use aion_so.Paging.Spaces.{new_process_space, adopt}
use aion_so.Paging.Adopting.{GoesOn, adopt_lem}
use aion_so.Paging.Sharing.{Answers, new_process_space_lem}
use aion_so.Paging.RoundTrip.{map-unmap}
use aion_so.Paging.{
  PageTables, Mapper, map, unmap, translate, descend, step, new_table, link, granted, place, follow,
  translate_from, resolved, stored, zeroed, write, reachable_bits,
}

abbrev small_map : MemoryMap
small_map = record {
  regions =
      record {
        start_phys_addr = phys 0x1000;
        page_count = 60;
        kind = MemoryRegionKind.usable;
        attributes = no_attributes;
      }
      ∷ [];
  len = 1;
  truncated = false;
}

abbrev frames : Allocator
frames = new (0 ∷ []) small_map

abbrev identity : Entries
identity t i =
    if t == 0x100000 && i == 0 then 0x101003 else if t == 0x101000 && i == 0 then 0x83 else 0

abbrev firmware : PageTables
firmware = record {
  root = 0x100000;
  access = record { window = 0; entries = identity; flushed = [] };
}

abbrev levels : ℕ → ℕ
levels a = if a == 0x100000 then 0 else if a == 0x101000 then 1 else 4

only_link : (t i : ℕ) → links (identity t i) ≡ true → (t ≡ 0x100000) × (i ≡ 0)
unfolding is_set
only_link t i on = ground arith

identity-IsTree : IsTree levels identity
unfolding is_set
identity-IsTree = record {
  deeper = λ t i h hi on. let (a, b) = only_link t i on in rw (a, b) refl;
  single = λ t i u j h hi on hu hj on' e.
      let (a, b) = only_link t i on in let (c, d) = only_link u j on' in (a ∙ sym c, b ∙ sym d);
  granting = λ t i h hi on. let (a, b) = only_link t i on in rw (a, b) refl;
}

abbrev mapper : Mapper Allocator
mapper = record { tables = firmware; frames = frames }

frames_lem :
    IsValid frames
    × (length frames.bitmap ≡ 1)
    × ((g : ℕ) → g < 1 * 64 → bit frames.bitmap g ≡ not (manages frames (frame_at g)))
frames_lem = new_lem (0 ∷ []) small_map (omega arith)

frames-size : length frames.bitmap ≡ 1
frames-size = let (_, e, _) = frames_lem in e

frames-IsReady : IsReady frames
frames-IsReady = let (v, e, _) = frames_lem in (v, omega (arith, e))

above : (a : ℕ) → FreeFrame frames a → 4 ≤ levels a
above a (g, inside, named, clear) = ground (arith, inside, named, frames-IsReady.1, frames-size)

mapper-IsSound : IsSound bitmap_source FreeFrame bitmap_promises mapper
mapper-IsSound = record {
  rank = levels;
  tree = identity-IsTree;
  top = refl;
  apart = (frames-IsReady, above);
}

abbrev heap_page : ℕ
heap_page = 0xFFFF808000000000

abbrev frame : PhysFrame
frame = record { start = phys 0x200000 }

two_mib-IsFrame : IsFrame 0x200000
two_mib-IsFrame = record { aligned = refl; small = omega arith }

heap_page-canonical : is_canonical heap_page ≡ true
unfolding is_canonical
heap_page-canonical = refl

abbrev after : Mapper Allocator × Option MapError
after = map bitmap_source mapper heap_page frame (kernel_flags true false)

map_lem_example :
    IsSound bitmap_source FreeFrame bitmap_promises after.0
    × ((after.1 ≡ none → Mapped firmware after.0.tables heap_page frame (kernel_flags true false))
        × (after.1 ≢ none
            → Refused firmware after.0.tables heap_page (kernel_flags true false) after.1))
map_lem_example =
    map_lem bitmap_source FreeFrame bitmap_promises mapper heap_page frame (kernel_flags true false)
      mapper-IsSound heap_page-canonical two_mib-IsFrame

mapped_ok : after.1 ≡ none
unfolding map descend step new_table link granted place follow translate translate_from is_canonical
    table_indices index_at is_set resolved stored zeroed write new allocate_frame reachable_bits
    kernel_flags xor free_words set_bit mark inward_frames scan frame_at containing_address
    trailing_zeros count_zeros iter
mapped_ok = refl

unmap_lem_example :
    IsSpace map_lem_example.0.rank (unmap after.0.tables heap_page).0
    × (((err : UnmapError) × (unmap after.0.tables heap_page ≡ (after.0.tables, inl err))
          × Kept after.0.tables heap_page err)
        ⊎ ((f : PhysFrame) × ((unmap after.0.tables heap_page).1 ≡ inr f)
            × Unmapped after.0.tables (unmap after.0.tables heap_page).0 heap_page f))
unmap_lem_example =
    unmap_lem map_lem_example.0.rank after.0.tables
      (record { tree = map_lem_example.0.tree; top = map_lem_example.0.top }) heap_page
      heap_page-canonical

map-unmap_example :
    ((unmap after.0.tables heap_page).1 ≡ inr frame)
    × ((va : ℕ) → translate (unmap after.0.tables heap_page).0 va ≡ translate firmware va)
map-unmap_example =
    map-unmap bitmap_source FreeFrame bitmap_promises mapper heap_page frame
      (kernel_flags true false) mapper-IsSound heap_page-canonical (omega arith) two_mib-IsFrame
      mapped_ok

bitmap_gives_example : Given frames (allocate_frame frames)
bitmap_gives_example = bitmap_gives frames frames-IsReady

new_process_space_lem_example :
    Answers bitmap_source FreeFrame bitmap_promises mapper (new_process_space bitmap_source mapper)
new_process_space_lem_example =
    new_process_space_lem bitmap_source FreeFrame bitmap_promises mapper mapper-IsSound

adopt_lem_example :
    GoesOn bitmap_source FreeFrame bitmap_promises mapper
      (adopt bitmap_source firmware.access firmware.root frames)
adopt_lem_example =
    adopt_lem bitmap_source FreeFrame bitmap_promises firmware.access firmware.root frames
      mapper-IsSound

abbrev collect : List ℕ → PhysFrame → List ℕ × Bool
collect taken f = (f.start.as_u64 ∷ taken, true)

abbrev firmware-IsSpace : IsSpace levels firmware
firmware-IsSpace = record { tree = identity-IsTree; top = refl }

firmware_small : (i : ℕ) → i < 256 → is_set (identity 0x100000 i) huge ≡ false
unfolding is_set
firmware_small i h = elim (Bool-cases (i == 0)) [ inl e ↦ rw e refl | inr e ↦ rw e refl ]

free_lower_half_lem_example :
    let r = free_lower_half collect firmware [] in
    (r.1 ≡ given collect (record { owner = []; count = 0 }) (lower_tables firmware))
    × (Returned levels firmware firmware-IsSpace (lower_tables firmware) × Emptied firmware r.0)
free_lower_half_lem_example =
    free_lower_half_lem levels firmware firmware-IsSpace collect [] firmware_small
