-- ===== src/Paging.antt =====
-- arch/x86_64/src/paging.rs: the 4-level page tables. `PageTables` with `translate`, `map`, `unmap`
-- and `new_table`. The memory of the tables is a function of a table's address and an index, as in
-- the trait `TableAccess`; what is flushed from the translation cache is kept as a list.
pub mod Entries
pub mod Bits
pub mod Tree
pub mod Walks
pub mod Growth
pub mod Linking
pub mod Descent
pub mod Indices
pub mod Leaf
pub mod Stopping
pub mod Outcomes
pub mod Mapping
pub mod Finding
pub mod Refusing
pub mod Unmapping
pub mod RoundTrip
pub mod Bitmap
pub mod Spaces
pub mod Copying
pub mod SharedTrees
pub mod Freeing
pub mod Handing
pub mod Releasing
pub mod Below
pub mod LowerHalf
pub mod Sharing
pub mod Adopting
mod Tests
use Prim.Native.Nat.{bit_and, bit_or}
use aion_so.Base.{
  ℕ, zero, suc, ◌-◌, ◌*◌, ◌/◌, ◌^◌, ◌+◌, Bool, true, false, not, ◌&&◌, ◌||◌, Option, some, none,
  List, [], ◌∷◌, if◌then◌else◌, ltb, ◌==◌, add64, ◌⊎◌, inl, inr,
}
use mathlib.Core.Bool.{xor}
use aion_so.Hal.Addr.{phys}
use aion_so.Hal.Frame.{PhysFrame, containing_address}
use aion_so.Hal.Paging.{PageFlags, MapError, UnmapError}
use aion_so.Paging.Entries.{
  present, user, writable, huge, no_execute, address_mask, cache_bits, is_set, kernel_space_base,
  table_indices, index_at, is_canonical, entries_per_table,
}

-- `flush` and `flush_all`.
pub data Flush : Type 0 where
  one_page : ℕ → Flush
  everything : Flush

-- `flushed` has the newest first.
pub record Access : Type 0 where
  pub window : ℕ
  pub entries : ℕ → ℕ → ℕ
  pub flushed : List Flush

unfoldable pub stored : (ℕ → ℕ → ℕ) → ℕ → ℕ → ℕ → ℕ → ℕ → ℕ
stored entries table index value t i = if t == table && i == index then value else entries t i

unfoldable pub write : Access → ℕ → ℕ → ℕ → Access
write a table index value = record a { entries = stored a.entries table index value }

abbrev pub flush : Access → ℕ → Access
flush a va = record a { flushed = Flush.one_page va ∷ a.flushed }

abbrev pub flush_all : Access → Access
flush_all a = record a { flushed = Flush.everything ∷ a.flushed }

pub record Translation : Type 0 where
  pub phys_addr : ℕ
  pub is_writable : Bool
  pub size : ℕ

pub record PageTables : Type 0 where
  pub root : ℕ
  pub access : Access

unfoldable pub resolved : ℕ → ℕ → ℕ → Bool → Translation
resolved va level entry w =
    let size = 2 ^ (39 - 9 * level) in
    record {
      phys_addr =
          bit_and (bit_and entry address_mask) (2 ^ 64 - 1 - (size - 1)) + bit_and va (size - 1);
      is_writable = w;
      size = size;
    }

-- The walk from `level` on, over the indices that are left.
unfoldable pub translate_from : (ℕ → ℕ → ℕ) → ℕ → ℕ → List ℕ → ℕ → Bool → Option Translation
translate_from entries va level [] table w = none
translate_from entries va level (index ∷ indices) table w =
    let entry = entries table index in
    let w' = w && is_set entry writable in
    let rest = translate_from entries va (suc level) indices (bit_and entry address_mask) w' in
    if not (is_set entry present) || (level == 0 && is_set entry huge)
    then none
    else if level == 3 || is_set entry huge
    then some (resolved va level entry w')
    else rest

unfoldable pub translate : PageTables → ℕ → Option Translation
translate t va =
    if not (is_canonical va)
    then none
    else translate_from t.access.entries va 0 (table_indices va) t.root true

-- The trait of hal/src/frame.rs: who implements it is not known here.
pub record FrameAllocator (F : Type 0) : Type 0 where
  pub allocate_frame : F → Option PhysFrame × F

unfoldable pub zeroed : (ℕ → ℕ → ℕ) → ℕ → ℕ → (ℕ → ℕ → ℕ)
zeroed entries table zero = entries
zeroed entries table (suc n) = stored (zeroed entries table n) table n 0

abbrev pub reaches : ℕ → Option Translation → Bool
reaches frame none = false
reaches frame (some t) = t.phys_addr == frame && t.is_writable

-- The page tables and the allocator that their frames come from.
pub record Mapper (F : Type 0) : Type 0 where
  pub tables : PageTables
  pub frames : F

-- Where a walk of `map` has got to.
pub record Walk (F : Type 0) : Type 0 where
  pub mapper : Mapper F
  pub table : ℕ
  pub upgraded : Bool

abbrev pub store : {F : Type 0} → Mapper F → ℕ → ℕ → ℕ → Mapper F
store m table index value = record m {
  tables = record m.tables { access = write m.tables.access table index value };
}

unfoldable pub reachable_bits : PageFlags → ℕ
reachable_bits flags =
    if flags.user then bit_or (bit_or present writable) user else bit_or present writable

unfoldable pub leaf_of : PhysFrame → PageFlags → ℕ
leaf_of frame flags =
    let leaf = bit_or (bit_or frame.start.as_u64 present) (cache_bits flags.cache) in
    let leaf = if flags.writable then bit_or leaf writable else leaf in
    let leaf = if not flags.executable then bit_or leaf no_execute else leaf in
    if flags.user then bit_or leaf user else leaf

unfoldable pub granted :
    {F : Type 0} → PageTables → Option PhysFrame × F → Mapper F × (MapError ⊎ ℕ)
granted tables (none, f) = (record { tables = tables; frames = f }, inl MapError.out_of_frames)
granted tables (some fr, f) =
    let frame = fr.start.as_u64 in
    let clean = record tables.access {
      entries = zeroed tables.access.entries frame entries_per_table;
    } in
    if reaches frame (translate tables (add64 tables.access.window frame))
    then (record { tables = record tables { access = clean }; frames = f }, inr frame)
    else (record { tables = tables; frames = f }, inl MapError.table_frame_not_writable)

-- A table that is there: it is followed, or the walk stops at a large page.
unfoldable pub follow : {F : Type 0} → PageFlags → ℕ → Walk F → Walk F × Option MapError
follow flags index w =
    let entry = w.mapper.tables.access.entries w.table index in
    let next = bit_and entry address_mask in
    if is_set entry huge
    then (w, some MapError.huge_page_in_the_way)
    else if flags.user && not (is_set entry user)
    then (
      record {
        mapper = store w.mapper w.table index (bit_or entry user);
        table = next;
        upgraded = true;
      },
      none,
    )
    else (record w { table = next }, none)

-- A new table is linked once it is zeroed.
unfoldable pub link :
    {F : Type 0} → PageFlags → ℕ → Walk F → Mapper F × (MapError ⊎ ℕ) → Walk F × Option MapError
link flags index w (m, inl err) = (record w { mapper = m }, some err)
link flags index w (m, inr new) = (
  record w { mapper = store m w.table index (bit_or new (reachable_bits flags)); table = new },
  none,
)

abbrev pub start_walk : {F : Type 0} → Mapper F → Walk F
start_walk m = record { mapper = m; table = m.tables.root; upgraded = false }

-- The last table is reached: the leaf is written there. `none` is `Ok(())`.
unfoldable pub place :
    {F : Type 0} → ℕ → PhysFrame → PageFlags → Walk F × Option MapError → Mapper F × Option MapError
place page frame flags (w, some err) = (w.mapper, some err)
place page frame flags (w, none) =
    let index = index_at page 12 in
    let a = flush (write w.mapper.tables.access w.table index (leaf_of frame flags)) page in
    let a = if w.upgraded then flush_all a else a in
    if is_set (w.mapper.tables.access.entries w.table index) present
    then (w.mapper, some MapError.already_mapped)
    else (record w.mapper { tables = record w.mapper.tables { access = a } }, none)

module _ {F : Type 0} (source : FrameAllocator F) where
  unfoldable pub new_table : Mapper F → Mapper F × (MapError ⊎ ℕ)
  new_table m = granted m.tables (source.allocate_frame m.frames)

  unfoldable pub step : PageFlags → ℕ → Walk F → Walk F × Option MapError
  step flags index w =
      if not (is_set (w.mapper.tables.access.entries w.table index) present)
      then link flags index w (new_table w.mapper)
      else follow flags index w

  unfoldable pub descend : PageFlags → List ℕ → Walk F → Walk F × Option MapError
  descend flags [] w = (w, none)
  descend flags (index ∷ indices) w =
      let (w', stopped) = step flags index w in
      elim stopped [ some err ↦ (w', some err) | none ↦ descend flags indices w' ]

  unfoldable pub map : Mapper F → ℕ → PhysFrame → PageFlags → Mapper F × Option MapError
  map m page frame flags =
      let indices = index_at page 39 ∷ index_at page 30 ∷ index_at page 21 ∷ [] in
      if xor flags.user (ltb page kernel_space_base)
      then (m, some MapError.outside_kernel_space)
      else place page frame flags (descend flags indices (start_walk m))

-- The table that holds the leaf of a page, for `unmap`.
unfoldable pub find_table : (ℕ → ℕ → ℕ) → List ℕ → ℕ → UnmapError ⊎ ℕ
find_table entries [] table = inr table
find_table entries (index ∷ indices) table =
    let entry = entries table index in
    let rest = find_table entries indices (bit_and entry address_mask) in
    if not (is_set entry present)
    then inl UnmapError.not_mapped
    else if is_set entry huge
    then inl UnmapError.huge_page_in_the_way
    else rest

unfoldable pub remove : PageTables → ℕ → UnmapError ⊎ ℕ → PageTables × (UnmapError ⊎ PhysFrame)
remove t page (inl err) = (t, inl err)
remove t page (inr table) =
    let index = index_at page 12 in
    let leaf = t.access.entries table index in
    if not (is_set leaf present) then (t, inl UnmapError.not_mapped) else (
      record t { access = flush (write t.access table index 0) page },
      inr (containing_address (phys (bit_and leaf address_mask))),
    )

unfoldable pub unmap : PageTables → ℕ → PageTables × (UnmapError ⊎ PhysFrame)
unmap t page =
    let indices = index_at page 39 ∷ index_at page 30 ∷ index_at page 21 ∷ [] in
    if ltb page kernel_space_base
    then (t, inl UnmapError.outside_kernel_space)
    else remove t page (find_table t.access.entries indices t.root)
