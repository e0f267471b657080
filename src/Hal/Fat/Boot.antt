-- ===== src/Hal/Fat/Boot.antt =====
-- hal/src/fat.rs: the boot sector of a FAT32 volume, where its parts are, and the entries of its
-- table. A sector is a list of 512 bytes.
use Prim.Native.Nat.{bit_and}
use aion_so.Base.{
  ℕ, ◌+◌, ◌-◌, ◌*◌, ◌/◌, ◌%◌, ◌^◌, Bool, not, ◌||◌, Option, none, some, List, [], ◌∷◌,
  if◌then◌else◌, ltb, leb, ◌==◌, get_or, take, drop, any, ◌⊎◌, inl, inr,
}

abbrev pub sector_bytes : ℕ
sector_bytes = 512

abbrev pub first_data_cluster : ℕ
first_data_cluster = 2

abbrev pub fat32_minimum_clusters : ℕ
fat32_minimum_clusters = 65525

pub data BootSectorError : Type 0 where
  no_signature sector_size sectors_per_cluster reserved_sectors fat_count not_fat32 fat_size
        root_cluster :
      ℕ → BootSectorError
  no_data_region : BootSectorError
  too_few_clusters : ℕ → BootSectorError
  fat_too_small : ℕ → ℕ → BootSectorError

pub record VolumeId : Type 0 where
  pub serial : ℕ
  pub label : List ℕ

pub record BootSector : Type 0 where
  pub bytes_per_sector : ℕ
  pub sectors_per_cluster : ℕ
  pub reserved_sectors : ℕ
  pub fat_count : ℕ
  pub total_sectors : ℕ
  pub sectors_per_fat : ℕ
  pub root_cluster : ℕ
  pub fs_info_sector : ℕ
  pub backup_boot_sector : ℕ
  pub clusters : ℕ
  pub volume_id : Option VolumeId

unfoldable pub u16_at : List ℕ → ℕ → ℕ
u16_at s at = get_or s at 0 + 256 * get_or s (at + 1) 0

unfoldable pub u32_at : List ℕ → ℕ → ℕ
u32_at s at =
    get_or s at 0
    + 256 * get_or s (at + 1) 0
    + 65536 * get_or s (at + 2) 0
    + 16777216 * get_or s (at + 3) 0

abbrev powers : List ℕ
powers = 1 ∷ 2 ∷ 4 ∷ 8 ∷ 16 ∷ 32 ∷ 64 ∷ 128 ∷ []

-- `u8::is_power_of_two`
unfoldable pub is_power_of_two : ℕ → Bool
is_power_of_two x = any (λ p. p == x) powers

-- Everything before the data region, in 64 bits.
unfoldable pub before_data : BootSector → ℕ
before_data b = b.reserved_sectors + b.fat_count * b.sectors_per_fat

unfoldable pub table_entries : BootSector → ℕ
table_entries b = b.sectors_per_fat * b.bytes_per_sector / 4

unfoldable pub count_clusters : ℕ → ℕ → ℕ → ℕ
count_clusters total before per_cluster = (total - before) / per_cluster % 2 ^ 32

unfoldable pub read_volume_id : List ℕ → Option VolumeId
read_volume_id s =
    if get_or s 66 0 == 0x29
    then some (record { serial = u32_at s 67; label = take 11 (drop 71 s) })
    else none

-- What the sector says, before any of it is believed.
unfoldable pub read_fields : List ℕ → BootSector
read_fields s = record {
  bytes_per_sector = u16_at s 11;
  sectors_per_cluster = get_or s 13 0;
  reserved_sectors = u16_at s 14;
  fat_count = get_or s 16 0;
  total_sectors = u32_at s 32;
  sectors_per_fat = u32_at s 36;
  root_cluster = u32_at s 44;
  fs_info_sector = u16_at s 48;
  backup_boot_sector = u16_at s 50;
  clusters =
      count_clusters (u32_at s 32) (u16_at s 14 + get_or s 16 0 * u32_at s 36) (get_or s 13 0);
  volume_id = read_volume_id s;
}

-- The first check that fails, in the order of the source.
unfoldable pub refusal : ℕ → ℕ → BootSector → Option BootSectorError
refusal signature sixteen_bit_fat_size b =
    if not (signature == 0xaa55)
    then some (BootSectorError.no_signature signature)
    else if not (b.bytes_per_sector == sector_bytes)
    then some (BootSectorError.sector_size b.bytes_per_sector)
    else if b.sectors_per_cluster == 0 || not (is_power_of_two b.sectors_per_cluster)
    then some (BootSectorError.sectors_per_cluster b.sectors_per_cluster)
    else if b.reserved_sectors == 0
    then some (BootSectorError.reserved_sectors b.reserved_sectors)
    else if b.fat_count == 0 || ltb 4 b.fat_count
    then some (BootSectorError.fat_count b.fat_count)
    else if not (sixteen_bit_fat_size == 0)
    then some (BootSectorError.not_fat32 sixteen_bit_fat_size)
    else if b.sectors_per_fat == 0
    then some (BootSectorError.fat_size b.sectors_per_fat)
    else if ltb b.root_cluster first_data_cluster
    then some (BootSectorError.root_cluster b.root_cluster)
    else if leb b.total_sectors (before_data b)
    then some BootSectorError.no_data_region
    else if ltb b.clusters fat32_minimum_clusters
    then some (BootSectorError.too_few_clusters b.clusters)
    else if ltb (table_entries b) (b.clusters + first_data_cluster)
    then some (BootSectorError.fat_too_small (table_entries b) b.clusters)
    else none

abbrev pub believed : BootSector → Option BootSectorError → BootSectorError ⊎ BootSector
believed b (some err) = inl err
believed b none = inr b

unfoldable pub parse : List ℕ → BootSectorError ⊎ BootSector
parse s = believed (read_fields s) (refusal (u16_at s 510) (u16_at s 22) (read_fields s))

-- The methods compute in 32 bits.
abbrev wrap : ℕ → ℕ
wrap x = x % 2 ^ 32

unfoldable pub first_fat_sector : BootSector → ℕ
first_fat_sector b = b.reserved_sectors

unfoldable pub first_data_sector : BootSector → ℕ
first_data_sector b = wrap (b.reserved_sectors + wrap (b.fat_count * b.sectors_per_fat))

abbrev pub has_cluster : BootSector → ℕ → Bool
has_cluster b cluster =
    not (ltb cluster first_data_cluster || leb (wrap (first_data_cluster + b.clusters)) cluster)

unfoldable pub sector_of_cluster : BootSector → ℕ → Option ℕ
sector_of_cluster b cluster =
    if not (has_cluster b cluster)
    then none
    else some
        (wrap (first_data_sector b + wrap ((cluster - first_data_cluster) * b.sectors_per_cluster)))

pub cluster_bytes : BootSector → ℕ
cluster_bytes b = wrap (b.bytes_per_sector * b.sectors_per_cluster)

pub data Entry : Type 0 where
  free reserved bad end : Entry
  next : ℕ → Entry

unfoldable pub decode : ℕ → Entry
decode raw =
    let masked = bit_and raw 0x0fffffff in
    if masked == 0
    then Entry.free
    else if masked == 1
    then Entry.reserved
    else if masked == 0x0ffffff7
    then Entry.bad
    else if leb 0x0ffffff8 masked
    then Entry.end
    else Entry.next masked
