-- ===== src/Hal/MemoryMap.antt =====
-- hal/src/memory_map.rs: the fixed-capacity memory map, and how the firmware's descriptors are
-- classified.
pub mod Laws
use Prim.Native.Nat.{bit_and}
use aion_so.Base.{
  ℕ, ◌+◌, Bool, true, false, not, List, [], ◌∷◌, if◌then◌else◌, leb, ◌==◌, set, take, replicate,
  add64,
}
use aion_so.Hal.Addr.{PhysAddr, phys}

pub data MemoryRegionKind : Type 0 where
  usable boot_services runtime_code runtime_data reserved : MemoryRegionKind

pub data CachePolicy : Type 0 where
  unspecified write_back write_through write_combining uncacheable : CachePolicy

pub record RegionAttributes : Type 0 where
  pub runtime : Bool
  pub cache : CachePolicy

abbrev pub no_attributes : RegionAttributes
no_attributes = record { runtime = false; cache = CachePolicy.unspecified }

pub record MemoryRegion : Type 0 where
  pub start_phys_addr : PhysAddr
  pub page_count : ℕ
  pub kind : MemoryRegionKind
  pub attributes : RegionAttributes

abbrev pub capacity : ℕ
capacity = 256

-- `regions` is the whole array; `len` of it is in use.
pub record MemoryMap : Type 0 where
  pub regions : List MemoryRegion
  pub len : ℕ
  pub truncated : Bool

abbrev empty_region : MemoryRegion
empty_region = record {
  start_phys_addr = phys 0;
  page_count = 0;
  kind = MemoryRegionKind.reserved;
  attributes = no_attributes;
}

unfoldable pub new : MemoryMap
new = record { regions = replicate capacity empty_region; len = 0; truncated = false }

-- `==` of a derived `PartialEq` compares the variants.
abbrev variant : MemoryRegionKind → ℕ
variant MemoryRegionKind.usable = 0
variant MemoryRegionKind.boot_services = 1
variant MemoryRegionKind.runtime_code = 2
variant MemoryRegionKind.runtime_data = 3
variant MemoryRegionKind.reserved = 4

abbrev pub is_kind : MemoryRegionKind → MemoryRegionKind → Bool
is_kind a b = variant a == variant b

-- The map after, and whether the region was added.
unfoldable pub push : MemoryMap → MemoryRegion → MemoryMap × Bool
push m region =
    if leb capacity m.len
    then (record m { truncated = true }, false)
    else (record m { regions = set m.regions m.len region; len = add64 m.len 1 }, true)

unfoldable pub iter : MemoryMap → List MemoryRegion
iter m = take m.len m.regions

pub is_complete : MemoryMap → Bool
is_complete m = not m.truncated

pub is_empty : MemoryMap → Bool
is_empty m = m.len == 0

-- `.filter(…).map(…).sum()`
total_of : MemoryRegionKind → List MemoryRegion → ℕ
total_of kind [] = 0
total_of kind (r ∷ rs) =
    if is_kind r.kind kind then add64 r.page_count (total_of kind rs) else total_of kind rs

pub total_pages : MemoryMap → MemoryRegionKind → ℕ
unfolding total_of iter
total_pages m kind = total_of kind (iter m)

pub total_usable_pages : MemoryMap → ℕ
unfolding total_pages
total_usable_pages m = total_pages m MemoryRegionKind.usable

abbrev has : ℕ → ℕ → Bool
has raw flag = not (bit_and raw flag == 0)

cache_of : ℕ → CachePolicy
cache_of raw =
    if has raw 0x8
    then CachePolicy.write_back
    else if has raw 0x4
    then CachePolicy.write_through
    else if has raw 0x2
    then CachePolicy.write_combining
    else if has raw 0x1
    then CachePolicy.uncacheable
    else CachePolicy.unspecified

unfoldable pub classify_attributes : ℕ → RegionAttributes
unfolding cache_of
classify_attributes raw = record { runtime = has raw 0x8000_0000_0000_0000; cache = cache_of raw }

unfoldable pub classify_memory_type : ℕ → MemoryRegionKind
classify_memory_type raw_ordinal =
    if raw_ordinal == 7
    then MemoryRegionKind.usable
    else if (raw_ordinal == 3)
    then MemoryRegionKind.boot_services
    else if (raw_ordinal == 4)
    then MemoryRegionKind.boot_services
    else if raw_ordinal == 5
    then MemoryRegionKind.runtime_code
    else if raw_ordinal == 6
    then MemoryRegionKind.runtime_data
    else MemoryRegionKind.reserved
