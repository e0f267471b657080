-- ===== src/Hal/Fat/Tests.antt =====
-- A volume of 65,530 clusters of one sector, with a file of 700 bytes in clusters 3 and 4.
use aion_so.Base.{
  ℕ, ◌+◌, ◌^◌, ◌≤◌, ◌<◌, ◌≡◌, refl, sym, ap, ◌∙◌, Bool, true, ◌&&◌, Bool-cases, none, some, List,
  [], ◌∷◌, ◌++◌, length, arith, replicate, ltb, if◌then◌else◌, ◌==◌, inl, inr,
}
use aion_so.Hal.Fat.Directory.{DirectoryEntry}
use aion_so.Hal.Fat.Boot.{
  BootSector, parse, read_fields, refusal, u16_at, u32_at, sector_of_cluster, first_data_sector,
  before_data, table_entries, count_clusters, read_volume_id, is_power_of_two,
}
use aion_so.Hal.Fat.Layout.{IsBytes, parse-IsLaidOut, layout_lem}
use aion_so.Hal.Fat.Volume.{Sectors, entry_sector, read_file}
use aion_so.Hal.Fat.Reading.{Reads, Whole, read_file_lem}

abbrev sector : List ℕ
sector =
    replicate 11 0
    ++ (0 ∷ 2 ∷ 1 ∷ 32 ∷ 0 ∷ 2 ∷ replicate 15 0)
    ++ (0x1a ∷ 4 ∷ 1 ∷ 0 ∷ 0 ∷ 2 ∷ 0 ∷ 0 ∷ replicate 4 0)
    ++ (2 ∷ 0 ∷ 0 ∷ 0 ∷ 1 ∷ 0 ∷ 6 ∷ 0 ∷ replicate 458 0)
    ++ (0x55 ∷ 0xaa ∷ [])

all_bytes : List ℕ → Bool
all_bytes [] = true
all_bytes (x ∷ xs) = ltb x 256 && all_bytes xs

IsBytes_of : (s : List ℕ) → all_bytes s ≡ true → IsBytes s
unfolding all_bytes
IsBytes_of [] h = tt
IsBytes_of (x ∷ xs) h = (ground (arith, h), IsBytes_of xs (ground (arith, h)))

sector-IsBytes : IsBytes sector
unfolding all_bytes
sector-IsBytes = IsBytes_of sector refl

abbrev boot : BootSector
boot = record {
  bytes_per_sector = 512;
  sectors_per_cluster = 1;
  reserved_sectors = 32;
  fat_count = 2;
  total_sectors = 66586;
  sectors_per_fat = 512;
  root_cluster = 2;
  fs_info_sector = 1;
  backup_boot_sector = 6;
  clusters = 65530;
  volume_id = none;
}

parsed : parse sector ≡ inr boot
unfolding parse read_fields refusal u16_at u32_at before_data table_entries count_clusters
    read_volume_id is_power_of_two
parsed = refl

third : sector_of_cluster boot 3 ≡ some 1057
unfolding sector_of_cluster first_data_sector
third = refl

layout_lem_example :
    (before_data boot ≤ 1057)
    × (1057 + 1 ≤ 66586)
    × (66586 < 2 ^ 32)
    × ((32 ≤ entry_sector boot 3) × (entry_sector boot 3 < 32 + 512))
    × ((other there : ℕ) → sector_of_cluster boot other ≡ some there → 3 < other → 1057 + 1 ≤ there)
layout_lem_example = layout_lem sector boot sector-IsBytes parsed 3 1057 third

abbrev disk : ℕ → List ℕ
disk n =
    if n == 32
    then replicate 12 0 ++ (4 ∷ 0 ∷ 0 ∷ 0 ∷ 0xff ∷ 0xff ∷ 0xff ∷ 0x0f ∷ replicate 492 0)
    else replicate 512 7

abbrev drive : Sectors Unit Unit
drive = record { read_sector = λ s n. (s, inr (disk n)) }

disk-length : (n : ℕ) → length (disk n) ≡ 512
disk-length n = elim (Bool-cases (n == 32)) [ inl e ↦ rw e refl | inr e ↦ rw e refl ]

drive-Reads : Reads drive (λ _. Unit) boot.total_sectors
drive-Reads = record {
  keeps = λ s n ok h. tt;
  whole = λ s n bytes e. let same : disk n ≡ bytes = cc in ap length (sym same) ∙ disk-length n;
}

abbrev entry : DirectoryEntry
entry = record { name = []; name_len = 0; attributes = 0; first_cluster = 3; size = 700 }

read_file_lem_example :
    Whole drive
      (λ _. Unit)
      boot
      (parse-IsLaidOut sector boot sector-IsBytes parsed)
      drive-Reads
      700
      (read_file drive (65530 + 1) boot tt entry 1024)
read_file_lem_example =
    read_file_lem drive (λ _. Unit) boot (parse-IsLaidOut sector boot sector-IsBytes parsed)
      drive-Reads tt entry 1024 tt

-- `foo.tx`
abbrev foo : List ℕ
foo = 0x66 ∷ 0x6f ∷ 0x6f ∷ 0x2e ∷ 0x74 ∷ 0x78 ∷ []

abbrev stored_foo : List ℕ
stored_foo = 0x46 ∷ 0x4f ∷ 0x4f ∷ 32 ∷ 32 ∷ 32 ∷ 32 ∷ 32 ∷ 0x54 ∷ 0x58 ∷ 32 ∷ []

abbrev after_the_name : List ℕ
after_the_name = 0x20 ∷ replicate 20 0
