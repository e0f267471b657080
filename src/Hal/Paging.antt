-- ===== src/Hal/Paging.antt =====
-- hal/src/paging.rs: what the architecture's page mapper is asked for and answers.
use aion_so.Base.{ℕ, Bool, true, false, Option, some, none, if◌then◌else◌, ◌==◌, ◌%◌, ◌-◌}
use aion_so.Hal.Addr.{VirtAddr, virt}
use aion_so.Hal.Frame.{PhysRange, frame_size}
use aion_so.Hal.MemoryMap.{CachePolicy}

-- A range that keeps its mapping, and how.
pub record MappedRange : Type 0 where
  pub range : PhysRange
  pub writable : Bool
  pub executable : Bool
  pub cache : CachePolicy

pub read_only_code : PhysRange → MappedRange
read_only_code r = record {
  range = r;
  writable = false;
  executable = true;
  cache = CachePolicy.write_back;
}

pub writable_code : PhysRange → CachePolicy → MappedRange
writable_code r policy = record { range = r; writable = true; executable = true; cache = policy }

pub data_range : PhysRange → CachePolicy → MappedRange
data_range r policy = record { range = r; writable = true; executable = false; cache = policy }

abbrev pub page_size : ℕ
page_size = frame_size

pub record Page : Type 0 where
  pub start : VirtAddr

-- `None` for an address that is not the start of a page.
unfoldable pub page_at : VirtAddr → Option Page
page_at addr = if addr.as_u64 % page_size == 0 then some (record { start = addr }) else none

unfoldable pub page_of : VirtAddr → Page
page_of addr = record { start = virt (addr.as_u64 - addr.as_u64 % page_size) }

pub record PageFlags : Type 0 where
  pub writable : Bool
  pub executable : Bool
  pub user : Bool
  pub cache : CachePolicy

unfoldable pub kernel_flags : Bool → Bool → PageFlags
kernel_flags w x = record {
  writable = w;
  executable = x;
  user = false;
  cache = CachePolicy.write_back;
}

unfoldable pub user_flags : Bool → Bool → PageFlags
user_flags w x = record {
  writable = w;
  executable = x;
  user = true;
  cache = CachePolicy.write_back;
}

unfoldable pub cached_as : PageFlags → CachePolicy → PageFlags
cached_as flags policy = record flags { cache = policy }

pub data MapError : Type 0 where
  outside_kernel_space already_mapped out_of_frames table_frame_not_writable huge_page_in_the_way :
      MapError

pub data UnmapError : Type 0 where
  outside_kernel_space not_mapped huge_page_in_the_way : UnmapError
