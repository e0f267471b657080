-- ===== src/Hal/Fat/Volume.antt =====
-- hal/src/fat.rs: reading a file of a volume, over whatever hands it sectors (`Sectors`). A read may
-- change the device, and may fail.
use aion_so.Base.{
  ℕ, zero, suc, ◌+◌, ◌-◌, ◌*◌, ◌/◌, ◌%◌, ◌^◌, not, Option, none, some, List, [], ◌++◌,
  if◌then◌else◌, ltb, ◌==◌, take, length, ◌⊎◌, inl, inr, min,
}
use aion_so.Hal.Fat.Directory.{DirectoryEntry}
use aion_so.Hal.Fat.Boot.{
  BootSector, BootSectorError, Entry, decode, u32_at, parse, sector_of_cluster, has_cluster,
  first_fat_sector,
}

pub data VolumeError (E : Type 0) : Type 0 where
  device : E → VolumeError E
  boot_sector : BootSectorError → VolumeError E
  bad_cluster : ℕ → VolumeError E
  broken_chain : ℕ → Entry → VolumeError E
  chain_loops : VolumeError E
  too_big : ℕ → VolumeError E

-- The device after, and the bytes of the sector or the device's error.
pub record Sectors (S E : Type 0) : Type 0 where
  pub read_sector : S → ℕ → S × (E ⊎ List ℕ)

abbrev pub in_volume :
    {S E A B : Type 0} → (A → VolumeError E ⊎ B) → S × (E ⊎ A) → S × (VolumeError E ⊎ B)
in_volume f (s, inl err) = (s, inl (VolumeError.device err))
in_volume f (s, inr bytes) = (s, f bytes)

-- A file's chain goes on; anything else before the file's last byte breaks it.
unfoldable pub link_of : {E : Type 0} → ℕ → Entry → VolumeError E ⊎ ℕ
link_of cluster (Entry.next next) = inr next
link_of cluster Entry.free = inl (VolumeError.broken_chain cluster Entry.free)
link_of cluster Entry.reserved = inl (VolumeError.broken_chain cluster Entry.reserved)
link_of cluster Entry.bad = inl (VolumeError.broken_chain cluster Entry.bad)
link_of cluster Entry.end = inl (VolumeError.broken_chain cluster Entry.end)

-- The sector of the first table that holds a cluster's entry; the sum is in 32 bits.
unfoldable pub entry_sector : BootSector → ℕ → ℕ
entry_sector b cluster = (first_fat_sector b + cluster / (b.bytes_per_sector / 4)) % 2 ^ 32

module _ {S E : Type 0} (source : Sectors S E) where
  unfoldable pub mount : S → S × (VolumeError E ⊎ BootSector)
  mount s =
      in_volume
        (λ bytes. elim (parse bytes) [
          | inl err ↦ inl (VolumeError.boot_sector err)
          | inr b ↦ inr b
        ])
        (source.read_sector s 0)

  unfoldable pub next_cluster : BootSector → S → ℕ → S × (VolumeError E ⊎ Entry)
  next_cluster b s cluster =
      let per_sector = b.bytes_per_sector / 4 in
      if not (has_cluster b cluster)
      then (s, inl (VolumeError.bad_cluster cluster))
      else in_volume (λ bytes. inr (decode (u32_at bytes (cluster % per_sector * 4))))
          (source.read_sector s (entry_sector b cluster))

  -- The sectors of one cluster, `left` of them from `sector` on, until the file has all its bytes.
  unfoldable pub read_sectors : ℕ → S → ℕ → ℕ → List ℕ → S × (VolumeError E ⊎ List ℕ)
  read_sectors zero s sector size written = (s, inr written)
  read_sectors (suc left) s sector size written =
      let (s', answer) = source.read_sector s sector in
      let rest : S × (VolumeError E ⊎ List ℕ) = elim answer [
        | inl err ↦ (s', inl (VolumeError.device err))
        | inr bytes ↦
            let taking = min (size - length written) (length bytes) in
            read_sectors left s' ((sector + 1) % 2 ^ 32) size (written ++ take taking bytes)
      ] in
      if length written == size then (s, inr written) else rest

  -- The loop over the chain. `seen` counts its links; `none` is a run that was cut off.
  unfoldable pub read_chain :
      ℕ → BootSector → S → ℕ → ℕ → ℕ → List ℕ → Option (S × (VolumeError E ⊎ List ℕ))
  read_chain zero b s cluster seen size written = none
  read_chain (suc fuel) b s cluster seen size written =
      let found : Option (S × (VolumeError E ⊎ List ℕ)) = elim (sector_of_cluster b cluster) [
        | none ↦ some (s, inl (VolumeError.bad_cluster cluster))
        | some first ↦
            let (s1, read) = read_sectors b.sectors_per_cluster s first size written in
            elim read [
              | inl err ↦ some (s1, inl err)
              | inr bytes ↦
                  let (s2, link) = next_cluster b s1 cluster in
                  let linked : Option (S × (VolumeError E ⊎ List ℕ)) = elim link [
                    | inl err ↦ some (s2, inl err)
                    | inr entry ↦ elim (link_of cluster entry) [
                      | inl err ↦ some (s2, inl err)
                      | inr next ↦ read_chain fuel b s2 next (seen + 1) size bytes
                    ]
                  ] in
                  if length bytes == size
                  then some (s1, inr bytes)
                  else if ltb b.clusters (seen + 1)
                  then some (s1, inl VolumeError.chain_loops)
                  else linked
            ]
      ] in
      if ltb (length written) size then found else some (s, inr written)

  -- The bytes that are written to the front of the buffer of `room` bytes.
  unfoldable pub read_file :
      ℕ → BootSector → S → DirectoryEntry → ℕ → Option (S × (VolumeError E ⊎ List ℕ))
  read_file fuel b s entry room =
      if ltb room entry.size
      then some (s, inl (VolumeError.too_big entry.size))
      else read_chain fuel b s entry.first_cluster 0 entry.size []
