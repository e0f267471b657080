-- ===== src/Hal/Fat/Layout.antt =====
-- hal/src/fat.rs: a boot sector that `parse` believes lays the volume out without a bad address.
use native.Mathlib.Nat.{mul-le-mul_right, mul-le-mul, div-mul-le_self, mod-le}
use aion_so.Base.{
  ℕ, zero, suc, ◌+◌, ◌-◌, ◌*◌, ◌/◌, ◌%◌, ◌^◌, ◌≤◌, ◌<◌, ◌≡◌, refl, sym, ap, ◌∙◌, none, some,
  some_inj, List, [], ◌∷◌, get_or, ◌⊎◌, inl, inr, arith, All, Bool-cases, Option-cases,
}
use aion_so.Hal.Fat.Volume.{entry_sector}
use aion_so.Hal.Fat.Boot.{
  BootSectorError, BootSector, u16_at, u32_at, before_data, table_entries, count_clusters,
  read_fields, refusal, parse, believed, first_fat_sector, first_data_sector, sector_of_cluster,
  has_cluster,
}

abbrev pub IsBytes : List ℕ → Type 0
IsBytes = All (λ b. b < 256)

pub record IsLaidOut (b : BootSector) : Type 0 where
  pub sector : b.bytes_per_sector ≡ 512
  pub per_cluster : 0 < b.sectors_per_cluster
  pub reserved : 0 < b.reserved_sectors
  pub tables : 0 < b.fat_count
  pub root : 2 ≤ b.root_cluster
  pub fits : before_data b + b.clusters * b.sectors_per_cluster ≤ b.total_sectors
  pub small : b.total_sectors < 2 ^ 32
  pub enough : 65525 ≤ b.clusters
  pub described : b.clusters + 2 ≤ b.sectors_per_fat * 128

byte_lt : (s : List ℕ) (i : ℕ) → IsBytes s → get_or s i 0 < 256
byte_lt [] i h = omega arith
byte_lt (x ∷ s) zero h = h.0
byte_lt (x ∷ s) (suc i) h = byte_lt s i h.1

u32_lt : (s : List ℕ) (i : ℕ) → IsBytes s → u32_at s i < 2 ^ 32
unfolding u32_at
u32_lt s i h =
    omega (arith, byte_lt s i h, byte_lt s (i + 1) h, byte_lt s (i + 2) h, byte_lt s (i + 3) h)

-- What holds when no check fails.
record Passed (b : BootSector) : Type 0 where
  pub sector : b.bytes_per_sector ≡ 512
  pub per_cluster : 0 < b.sectors_per_cluster
  pub reserved : 0 < b.reserved_sectors
  pub tables : 0 < b.fat_count
  pub root : 2 ≤ b.root_cluster
  pub room : before_data b < b.total_sectors
  pub enough : 65525 ≤ b.clusters
  pub described : b.clusters + 2 ≤ table_entries b

refusal-none :
    (signature sixteen : ℕ) (b : BootSector) → refusal signature sixteen b ≡ none → Passed b
unfolding refusal
refusal-none signature sixteen b e = record {
  sector = ground (arith, e);
  per_cluster = ground (arith, e);
  reserved = ground (arith, e);
  tables = ground (arith, e);
  root = ground (arith, e);
  room = ground (arith, e);
  enough = ground (arith, e);
  described = ground (arith, e);
}

read-Passed-IsLaidOut :
    (s : List ℕ) → IsBytes s → Passed (read_fields s) → IsLaidOut (read_fields s)
unfolding read_fields before_data table_entries count_clusters
read-Passed-IsLaidOut s h p =
    let b : BootSector = read_fields s in
    let data_sectors : ℕ =
      b.total_sectors - (b.reserved_sectors + b.fat_count * b.sectors_per_fat) in
    let within : b.clusters * b.sectors_per_cluster
        ≤ data_sectors / b.sectors_per_cluster * b.sectors_per_cluster =
      mul-le-mul_right b.sectors_per_cluster
        (mod-le (data_sectors / b.sectors_per_cluster) (2 ^ 32)) in
    let covered : data_sectors / b.sectors_per_cluster * b.sectors_per_cluster ≤ data_sectors =
      div-mul-le_self data_sectors b.sectors_per_cluster in
    record {
      sector = p.sector;
      per_cluster = p.per_cluster;
      reserved = p.reserved;
      tables = p.tables;
      root = p.root;
      fits = omega (arith, within, covered, p.room);
      small = u32_lt s 32 h;
      enough = p.enough;
      described =
          let bytes : b.sectors_per_fat * b.bytes_per_sector ≡ b.sectors_per_fat * 512 =
            ap (λ x. b.sectors_per_fat * x) p.sector in
          omega (arith, bytes, p.described);
    }

parse-Passed :
    (s : List ℕ) (b : BootSector) → parse s ≡ inr b → (b ≡ read_fields s) × Passed (read_fields s)
unfolding parse
parse-Passed s b e = elim (Option-cases (refusal (u16_at s 510) (u16_at s 22) (read_fields s))) [
  | inl f ↦ (inr_inj _ _ (sym e ∙ ap (believed (read_fields s)) f), refusal-none _ _ _ f)
  | inr (err, f) ↦ absurd (inl_ne_inr _ _ (sym (ap (believed (read_fields s)) f) ∙ e))
]
  where
    inr_inj : (x y : BootSector) → ◌≡◌ {A = BootSectorError ⊎ BootSector} (inr x) (inr y) → x ≡ y
    inr_inj x y e = cc

    inl_ne_inr :
        (x : BootSectorError) (y : BootSector)
        → ◌≡◌ {A = BootSectorError ⊎ BootSector} (inl x) (inr y)
        → ⊥
    inl_ne_inr x y e = ground arith

pub parse-IsLaidOut : (s : List ℕ) (b : BootSector) → IsBytes s → parse s ≡ inr b → IsLaidOut b
parse-IsLaidOut s b h e =
    let (same, passed) = parse-Passed s b e in rw same (read-Passed-IsLaidOut s h passed)

-- Where a cluster is, without overflow.
pub record Placed (b : BootSector) (cluster first : ℕ) : Type 0 where
  pub at : first ≡ before_data b + (cluster - 2) * b.sectors_per_cluster
  pub exists : (2 ≤ cluster) × (cluster < 2 + b.clusters)
  pub inside : first + b.sectors_per_cluster ≤ b.total_sectors

-- No number of the layout reaches 2^32.
pub clusters_lt :
    (b : BootSector)
    → IsLaidOut b
    → (2 + b.clusters < 2 ^ 32) × (b.fat_count * b.sectors_per_fat < 2 ^ 32)
unfolding before_data
clusters_lt b l =
    let one : 1 * 1 ≤ b.fat_count * b.sectors_per_fat =
      mul-le-mul {n₁ = 1} {m₁ = 1} {n₂ = b.fat_count} {m₂ = b.sectors_per_fat} l.tables
        (omega (arith, l.described)) in
    let wide : b.clusters * 1 ≤ b.clusters * b.sectors_per_cluster =
      mul-le-mul {n₁ = b.clusters} {m₁ = 1} {n₂ = b.clusters} {m₂ = b.sectors_per_cluster}
        (omega arith) l.per_cluster in
    (omega (arith, one, wide, l.fits, l.small, l.reserved), omega (arith, l.fits, l.small))

pub sector_of_cluster-Placed :
    (b : BootSector)
    → IsLaidOut b
    → (cluster first : ℕ) → sector_of_cluster b cluster ≡ some first
    → Placed b cluster first
unfolding sector_of_cluster first_data_sector before_data
sector_of_cluster-Placed b l cluster first e = elim (Bool-cases (has_cluster b cluster)) [
  | inr off ↦ ground (arith, e, off)
  | inl on ↦
      let (few, tables) = clusters_lt b l in
      let low : 2 ≤ cluster = ground (arith, on) in
      let high : cluster < 2 + b.clusters = ground (arith, on, few) in
      let up : (cluster - 2 + 1) * b.sectors_per_cluster ≤ b.clusters * b.sectors_per_cluster =
        mul-le-mul_right b.sectors_per_cluster (omega arith) in
      let value : first
          ≡ ((b.reserved_sectors + b.fat_count * b.sectors_per_fat % 2 ^ 32) % 2 ^ 32
              + (cluster - 2) * b.sectors_per_cluster % 2 ^ 32)
            % 2 ^ 32 =
        some_inj _ _ (sym e ∙ rw on refl) in
      record {
        at = omega (arith, value, up, tables, l.fits, l.small);
        exists = (low, high);
        inside = omega (arith, value, up, tables, l.fits, l.small);
      }
]

-- A cluster of the volume has its entry in a sector of the first table, with no wrap.
pub entry_sector_lem :
    (b : BootSector)
    → IsLaidOut b
    → (cluster : ℕ) → 2 ≤ cluster
    → cluster < 2 + b.clusters
    → (b.reserved_sectors ≤ entry_sector b cluster)
      × (entry_sector b cluster < b.reserved_sectors + b.sectors_per_fat)
      × (entry_sector b cluster < b.total_sectors)
unfolding entry_sector first_fat_sector before_data
entry_sector_lem b l cluster low high =
    let (few, tables) = clusters_lt b l in
    let table : 1 * b.sectors_per_fat ≤ b.fat_count * b.sectors_per_fat =
      mul-le-mul_right b.sectors_per_fat l.tables in
    rw l.sector (
      omega (arith, high, table, l.described, l.fits, l.small),
      omega (arith, high, table, l.described, l.fits, l.small),
      omega (arith, high, table, l.described, l.fits, l.small),
    )

-- A boot sector that `parse` believes has no bad address in it: every cluster that
-- `sector_of_cluster` answers lies past the tables and ends inside the volume, with no wrap in the
-- arithmetic; two clusters share no sector; and every cluster has its entry inside the first table.
pub layout_lem :
    (s : List ℕ) (b : BootSector)
    → IsBytes s
    → parse s ≡ inr b
    → (cluster first : ℕ) → sector_of_cluster b cluster ≡ some first
    → (before_data b ≤ first)
      × (first + b.sectors_per_cluster ≤ b.total_sectors)
      × (b.total_sectors < 2 ^ 32)
      × ((b.reserved_sectors ≤ entry_sector b cluster)
          × (entry_sector b cluster < b.reserved_sectors + b.sectors_per_fat))
      × ((other there : ℕ)
          → sector_of_cluster b other ≡ some there
          → cluster < other
          → first + b.sectors_per_cluster ≤ there)
layout_lem s b h e cluster first f =
    let l : IsLaidOut b = parse-IsLaidOut s b h e in
    let p : Placed b cluster first = sector_of_cluster-Placed b l cluster first f in
    (
      omega (arith, p.at),
      p.inside,
      l.small,
      (
        (entry_sector_lem b l cluster p.exists.0 p.exists.1).0,
        (entry_sector_lem b l cluster p.exists.0 p.exists.1).1,
      ),
      λ other there g lt.
          let q : Placed b other there = sector_of_cluster-Placed b l other there g in
          let up : (cluster - 2 + 1) * b.sectors_per_cluster ≤ (other - 2) * b.sectors_per_cluster =
            mul-le-mul_right b.sectors_per_cluster (omega (arith, p.exists, lt)) in
          omega (arith, p.at, q.at, up),
    )
