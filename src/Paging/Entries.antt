-- ===== src/Paging/Entries.antt =====
-- arch/x86_64/src/paging.rs: the bits of a page-table entry, the indices of an address, and the
-- places of kernel space.
use Prim.Native.Nat.{bit_and, bit_or}
use aion_so.Base.{ℕ, ◌/◌, ◌^◌, Bool, not, ◌||◌, List, [], ◌∷◌, ◌==◌}
use aion_so.Hal.MemoryMap.{CachePolicy}

abbrev pub kernel_space_base : ℕ
kernel_space_base = 0xFFFF800000000000

abbrev pub entries_per_table : ℕ
entries_per_table = 512

abbrev pub present : ℕ
present = 2 ^ 0

abbrev pub user : ℕ
user = 2 ^ 2

abbrev pub writable : ℕ
writable = 2 ^ 1

abbrev pub write_through : ℕ
write_through = 2 ^ 3

abbrev pub cache_disable : ℕ
cache_disable = 2 ^ 4

abbrev pub huge : ℕ
huge = 2 ^ 7

abbrev pub no_execute : ℕ
no_execute = 2 ^ 63

abbrev pub address_mask : ℕ
address_mask = 0x000FFFFFFFFFF000

-- `entry & bit != 0`
unfoldable pub is_set : ℕ → ℕ → Bool
is_set entry bit = not (bit_and entry bit == 0)

unfoldable pub index_at : ℕ → ℕ → ℕ
index_at va shift = bit_and (va / 2 ^ shift) 511

unfoldable pub table_indices : ℕ → List ℕ
table_indices va = index_at va 39 ∷ index_at va 30 ∷ index_at va 21 ∷ index_at va 12 ∷ []

unfoldable pub is_canonical : ℕ → Bool
is_canonical va = va / 2 ^ 47 == 0 || va / 2 ^ 47 == 0x1FFFF

unfoldable pub cache_bits : CachePolicy → ℕ
cache_bits CachePolicy.write_back = 0
cache_bits CachePolicy.unspecified = 0
cache_bits CachePolicy.write_through = write_through
cache_bits CachePolicy.write_combining = bit_or cache_disable write_through
cache_bits CachePolicy.uncacheable = bit_or cache_disable write_through
