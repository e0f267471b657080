-- ===== src/Memory/FreeList.antt =====
-- kernel/src/memory/heap/free_list.rs: the address-ordered free list of the kernel heap. A hole
-- keeps its size and the address of the next hole in its own first 16 bytes; `memory` maps an
-- aligned address to the header that stands there. `none` is a failed assertion.
pub mod Holes
pub mod Keeping
pub mod Fitting
pub mod Carving
pub mod Room
pub mod Walk
pub mod Allocate
pub mod Merging
pub mod Placing
pub mod Settling
pub mod Deallocate
pub mod Releasing
pub mod Free
pub mod RoundTrip
pub mod Init
pub mod Check
pub mod Checks
pub mod Faults
pub mod Verdict
mod Tests
use aion_so.Base.{
  ℕ, zero, suc, ◌+◌, ◌-◌, ◌*◌, ◌/◌, ◌%◌, max, Bool, false, not, ◌&&◌, ◌||◌, Option, none, some,
  if◌then◌else◌, ltb, leb, ◌==◌, ◌>>=◌, checked_add, checked_next_multiple_of, add64, sub64,
}

abbrev pub granule : ℕ
granule = 16

pub record Hole : Type 0 where
  pub size : ℕ
  pub next : ℕ

pub record Layout : Type 0 where
  pub size : ℕ
  pub align : ℕ

-- `base` is 0 until `init`; an address of 0 is no hole.
pub record Heap : Type 0 where
  pub base : ℕ
  pub start : ℕ
  pub end' : ℕ
  pub head : ℕ
  pub free : ℕ
  pub memory : ℕ → Hole

-- `empty`, over whatever the memory holds.
unfoldable pub empty : (ℕ → Hole) → Heap
empty memory = record { base = 0; start = 0; end' = 0; head = 0; free = 0; memory = memory }

-- The assertions of `hole_ptr`.
unfoldable pub is_hole_addr : Heap → ℕ → Bool
is_hole_addr h addr =
    addr % granule == 0
    && (leb h.start addr
        && elim (checked_add addr granule) [ none ↦ false | some past ↦ leb past h.end' ])

unfoldable pub read_hole : Heap → ℕ → Option Hole
unfolding is_hole_addr
read_hole h addr = if is_hole_addr h addr then some (h.memory addr) else none

abbrev pub update : (ℕ → Hole) → ℕ → Hole → ℕ → Hole
update memory addr hole x = if x == addr then hole else memory x

unfoldable pub write_hole : Heap → ℕ → Hole → Option Heap
unfolding is_hole_addr
write_hole h addr hole =
    if is_hole_addr h addr then some (record h { memory = update h.memory addr hole }) else none

unfoldable pub link : Heap → ℕ → ℕ → Option Heap
unfolding read_hole write_hole
link h prev next =
    if prev == 0
    then some (record h { head = next })
    else (do hole ← read_hole h prev; write_hole h prev (record hole { next = next }))

unfoldable pub block_size : Layout → Option ℕ
block_size layout = checked_next_multiple_of (max layout.size 1) granule

-- `init`, on a heap that was not initialised. `none` is the double initialisation or a region that
-- wraps round the address space.
unfoldable pub region_start : ℕ → Option ℕ
region_start start = checked_next_multiple_of start granule

unfoldable pub region_end : ℕ → ℕ → Option ℕ
region_end start size = do past ← checked_add start size; some (past / granule * granule)

unfoldable pub open_region : Heap → ℕ → ℕ → ℕ → Option Heap
unfolding write_hole
open_region h base first past =
    let placed = record h { base = base; start = first; end' = max past first } in
    if leb granule (max past first - first)
    then (do
      written ← write_hole placed first (record { size = max past first - first; next = 0 })
      some (record written { head = first; free = max past first - first }))
    else some placed

unfoldable pub init : Heap → ℕ → ℕ → Option Heap
unfolding region_start region_end open_region
init h start size =
    if not (h.base == 0)
    then none
    else do first ← region_start start; past ← region_end start size; open_region h start first past

-- The block that a hole offers, if the request fits it.
unfoldable pub fit : ℕ → ℕ → ℕ → ℕ → Option ℕ
fit current hole_end size align = do
  block ← checked_next_multiple_of current align
  block_end ← checked_add block size
  if leb block_end hole_end then some block else none

-- What is left on one side of the block stays free: the heap, and the address of the first hole of
-- the rest.
unfoldable pub keep_free : Heap → ℕ → ℕ → ℕ → Option (Heap × ℕ)
unfolding write_hole
keep_free h from to rest =
    if ltb from to
    then (do h' ← write_hole h from (record { size = to - from; next = rest }); some (h', from))
    else some (h, rest)

-- `NonNull::new`
abbrev non_null : ℕ → Option ℕ
non_null a = if a == 0 then none else some a

unfoldable pub carve : Heap → ℕ → ℕ → Hole → ℕ → ℕ → Option (Option ℕ × Heap)
unfolding keep_free link
carve h prev current hole block size = do
  behind ← keep_free h (block + size) (add64 current hole.size) hole.next
  before ← keep_free behind.0 current block behind.1
  linked ← link before.0 prev before.1
  some (non_null block, record linked { free = sub64 linked.free size })

-- The walk of `allocate`, with fuel.
unfoldable pub allocate_from : ℕ → Heap → ℕ → ℕ → ℕ → ℕ → Option (Option ℕ × Heap)
unfolding read_hole fit carve
allocate_from zero h size align prev current = none
allocate_from (suc fuel) h size align prev current =
    let walk = λ (hole : Hole). allocate_from fuel h size align current hole.next in
    if current == 0 then some (none, h) else do
      hole ← read_hole h current
      elim (fit current (add64 current hole.size) size align) [
        | none ↦ walk hole
        | some block ↦ carve h prev current hole block size
      ]

-- One more round than there can be holes.
abbrev pub rounds : Heap → ℕ
rounds h = (h.end' - h.start) / granule + 1

unfoldable pub allocate : Heap → Layout → Option (Option ℕ × Heap)
unfolding block_size allocate_from
allocate h layout = elim (block_size layout) [
  | none ↦ some (none, h)
  | some size ↦ allocate_from (rounds h) h size (max layout.align granule) 0 h.head
]

-- `while current != 0 && current < block`, with fuel: the last hole before the block and the first
-- one after.
unfoldable pub seek : ℕ → Heap → ℕ → ℕ → ℕ → Option (ℕ × ℕ)
unfolding read_hole
seek zero h block prev current = none
seek (suc fuel) h block prev current =
    let walk = λ (hole : Hole). seek fuel h block current hole.next in
    if not (current == 0) && ltb current block
    then (do hole ← read_hole h current; walk hole)
    else some (prev, current)

-- The block joined with the hole after it, if they touch.
unfoldable pub merge_next : Heap → ℕ → ℕ → ℕ → Option Hole
unfolding read_hole
merge_next h block size current =
    if not (current == 0) && (block + size == current)
    then (do
      next_hole ← read_hole h current
      some (record { size = add64 size next_hole.size; next = next_hole.next }))
    else some (record { size = size; next = current })

-- And with the hole before it, or else put in the list on its own.
unfoldable pub merge_prev : Heap → ℕ → ℕ → Hole → Option Heap
unfolding read_hole write_hole link
merge_prev h prev block merged =
    if prev == 0 then (do written ← write_hole h block merged; link written prev block) else do
      hole ← read_hole h prev
      if add64 prev hole.size == block
          then write_hole h prev (record { size = add64 hole.size merged.size; next = merged.next })
          else (do written ← write_hole h block merged; link written prev block)

-- The assertion that what is freed overlaps no free memory.
unfoldable pub overlaps_free : Heap → ℕ → ℕ → ℕ → ℕ → Option Bool
unfolding read_hole
overlaps_free h prev block block_end current =
    let after = not (current == 0) && ltb current block_end in
    if prev == 0
    then some after
    else (do hole ← read_hole h prev; some (ltb block (add64 prev hole.size) || after))

unfoldable pub is_block : Heap → ℕ → ℕ → Bool
is_block h block size = elim (checked_add block size) [
  | none ↦ false
  | some block_end ↦ leb h.start block && (leb block_end h.end' && (block % granule == 0))
]

unfoldable pub free_block : Heap → ℕ → ℕ → ℕ → ℕ → Option Heap
unfolding overlaps_free merge_next merge_prev
free_block h block size prev current = do
  overlaps ← overlaps_free h prev block (block + size) current
  if overlaps then none else do
    merged ← merge_next h block size current
    h' ← merge_prev h prev block merged
    some (record h' { free = add64 h'.free size })

unfoldable pub deallocate : Heap → ℕ → Layout → Option Heap
unfolding block_size is_block seek free_block
deallocate h block layout = do
  size ← block_size layout
  if is_block h block size
      then (do found ← seek (rounds h) h block 0 h.head; free_block h block size found.0 found.1)
      else none
