-- ===== src/Hal/Fat/Reading.antt =====
-- hal/src/fat.rs: reading a file ends, stays inside the volume, and gives as many bytes as the file
-- has.
use aion_so.Base.{
  ℕ, zero, suc, ◌+◌, ◌-◌, ◌%◌, ◌^◌, ◌≤◌, ◌<◌, ◌≡◌, refl, Option, some, List, [], ◌++◌, ltb, ◌==◌,
  take, length, length-append, length-take, ◌⊎◌, inl, inr, min, arith, Bool-cases, Option-cases,
  ==→eq, ltb→le,
}
use aion_so.Hal.Fat.Directory.{DirectoryEntry}
use aion_so.Hal.Fat.Boot.{BootSector, Entry, sector_of_cluster, has_cluster}
use aion_so.Hal.Fat.Layout.{
  IsLaidOut, Placed, sector_of_cluster-Placed, entry_sector_lem, clusters_lt,
}
use aion_so.Hal.Fat.Volume.{
  VolumeError, Sectors, entry_sector, in_volume, link_of, next_cluster, read_sectors, read_chain,
  read_file,
}

pub Sum-cases : {A B : Type 0} (x : A ⊎ B) → ((a : A) × (x ≡ inl a)) ⊎ ((b : B) × (x ≡ inr b))
Sum-cases (inl a) = inl (a, refl)
Sum-cases (inr b) = inr (b, refl)

-- A device that reads the first `total` sectors: its own state stays as it should be, and a sector
-- that it answers has 512 bytes.
pub record Reads {S E : Type 0} (source : Sectors S E) (Ok : S → Type 0) (total : ℕ) : Type 0 where
  pub keeps : (s : S) (n : ℕ) → Ok s → n < total → Ok (source.read_sector s n).0
  pub whole :
      (s : S) (n : ℕ) (bytes : List ℕ) → (source.read_sector s n).1 ≡ inr bytes → length bytes ≡ 512

module _ {S E : Type 0} (source : Sectors S E) (Ok : S → Type 0) (b : BootSector) (l : IsLaidOut b)
    (device : Reads source Ok b.total_sectors) where
  abbrev Grows : List ℕ → ℕ → S × (VolumeError E ⊎ List ℕ) → Type 0
  Grows written size r =
      Ok r.0 × ((w : List ℕ) → r.1 ≡ inr w → (length written ≤ length w) × (length w ≤ size))

  as_written :
      (v w : List ℕ) (size : ℕ)
      → length v ≤ size
      → ◌≡◌ {A = VolumeError E ⊎ List ℕ} (inr v) (inr w)
      → (length v ≤ length w) × (length w ≤ size)
  as_written v w size h e = let same : v ≡ w = cc in rw (← same) (omega arith, h)

  in_volume-keeps :
      {A B : Type 0} (f : A → VolumeError E ⊎ B) (x : S × (E ⊎ A)) → Ok x.0 → Ok (in_volume f x).0
  in_volume-keeps f (s, inl err) ok = ok
  in_volume-keeps f (s, inr a) ok = ok

  read_sectors_lem :
      (left : ℕ) (s : S) (sector size : ℕ) (written : List ℕ)
      → Ok s
      → sector + left ≤ b.total_sectors
      → length written ≤ size
      → Grows written size (read_sectors source left s sector size written)
  unfolding read_sectors
  read_sectors_lem zero s sector size written ok room small =
      (ok, λ w e. as_written written w size small e)
  read_sectors_lem (suc left) s sector size written ok room small =
      elim (Bool-cases (length written == size)) [
        | inl full ↦ rw full (ok, λ w e. as_written written w size small e)
        | inr more ↦ elim (Sum-cases (source.read_sector s sector).1) [
          | inl (err, e) ↦
              rw (more, e) (device.keeps s sector ok (omega arith), λ w f. ground arith)
          | inr (bytes, e) ↦
              let taking : ℕ = min (size - length written) (length bytes) in
              let longer : length (written ++ take taking bytes) ≡ length written + taking =
                omega
                  (arith, length-append written (take taking bytes), length-take taking bytes) in
              let (ok', grows) =
                read_sectors_lem left (source.read_sector s sector).0 ((sector + 1) % 2 ^ 32) size
                  (written ++ take taking bytes) (device.keeps s sector ok (omega arith))
                  (omega (arith, l.small)) (omega (arith, longer)) in
              rw (more, e) (ok', λ w f. let (a, c) = grows w f in (omega (arith, longer, a), c))
        ]
      ]

  next_cluster_lem : (s : S) (cluster : ℕ) → Ok s → Ok (next_cluster source b s cluster).0
  unfolding next_cluster
  next_cluster_lem s cluster ok = elim (Bool-cases (has_cluster b cluster)) [
    | inr off ↦ rw off ok
    | inl on ↦
        let (few, _) = clusters_lt b l in
        let (_, _, inside) =
          entry_sector_lem b l cluster (ground (arith, on)) (ground (arith, on, few)) in
        rw on (in_volume-keeps _ _ (device.keeps s (entry_sector b cluster) ok inside))
  ]

  abbrev pub Whole : ℕ → Option (S × (VolumeError E ⊎ List ℕ)) → Type 0
  Whole size o =
      (r : S × (VolumeError E ⊎ List ℕ)) × (o ≡ some r)
      × Ok r.0
      × ((w : List ℕ) → r.1 ≡ inr w → length w ≡ size)

  read_chain_lem :
      (fuel : ℕ) (s : S) (cluster seen size : ℕ) (written : List ℕ)
      → Ok s
      → seen ≤ b.clusters
      → b.clusters < fuel + seen
      → length written ≤ size
      → Whole size (read_chain source fuel b s cluster seen size written)
  unfolding read_chain
  read_chain_lem zero s cluster seen size written ok h fuel small = absurd (omega arith)
  read_chain_lem (suc fuel) s cluster seen size written ok h enough small =
      elim (Bool-cases (ltb (length written) size)) [
        | inr done ↦ rw done (
          (s, inr written),
          refl,
          ok,
          λ w e. omega (arith, ltb→le _ _ done, as_written written w size small e),
        )
        | inl more ↦ elim (Option-cases (sector_of_cluster b cluster)) [
          | inl e ↦
              rw (more, e)
                ((s, inl (VolumeError.bad_cluster cluster)), refl, ok, λ w f. ground arith)
          | inr (first, e) ↦
              let p : Placed b cluster first = sector_of_cluster-Placed b l cluster first e in
              let r : S × (VolumeError E ⊎ List ℕ) =
                read_sectors source b.sectors_per_cluster s first size written in
              let (ok1, grows) =
                read_sectors_lem b.sectors_per_cluster s first size written ok p.inside small in
              elim (Sum-cases r.1) [
                | inl (err, f) ↦ rw (more, e, f) ((r.0, inl err), refl, ok1, λ w g. ground arith)
                | inr (bytes, f) ↦
                    let (_, fits) = grows bytes f in
                    let n : S × (VolumeError E ⊎ Entry) = next_cluster source b r.0 cluster in
                    elim (Bool-cases (length bytes == size)) [
                      | inl full ↦
                          rw (more, e, f, full)
                            (
                              (r.0, inr bytes),
                              refl,
                              ok1,
                              λ w g. omega (arith, ==→eq _ _ full, as_written bytes w size fits g),
                            )
                      | inr part ↦ elim (Bool-cases (ltb b.clusters (seen + 1))) [
                        | inl loops ↦
                            rw (more, e, f, part, loops)
                              ((r.0, inl VolumeError.chain_loops), refl, ok1, λ w g. ground arith)
                        | inr on ↦
                            let ok2 : Ok n.0 = next_cluster_lem r.0 cluster ok1 in
                            elim (Sum-cases n.1) [
                              | inl (err, g) ↦
                                  rw (more, e, f, part, on, g)
                                    ((n.0, inl err), refl, ok2, λ w k. ground arith)
                              | inr (entry, g) ↦ elim (Sum-cases (link_of {E = E} cluster entry)) [
                                | inl (err, k) ↦
                                    rw (more, e, f, part, on, g, k)
                                      ((n.0, inl err), refl, ok2, λ w z. ground arith)
                                | inr (next, k) ↦
                                    rw (more, e, f, part, on, g, k)
                                      (read_chain_lem fuel n.0 next (seen + 1) size bytes ok2
                                        (omega (arith, ltb→le _ _ on)) (omega arith) fits)
                              ]
                            ]
                      ]
                    ]
              ]
        ]
      ]

  -- On a volume that `parse` has laid out, over a device that answers whole sectors of the volume,
  -- `read_file` ends: a run of one round more than the volume has clusters is never cut off,
  -- whatever the table says, loops included. It reads no sector outside the volume, and when it
  -- answers bytes there are exactly as many as the directory entry says.
  pub read_file_lem :
      (s : S) (entry : DirectoryEntry) (room : ℕ)
      → Ok s
      → Whole entry.size (read_file source (b.clusters + 1) b s entry room)
  unfolding read_file
  read_file_lem s entry room ok = elim (Bool-cases (ltb room entry.size)) [
    | inl big ↦ rw big ((s, inl (VolumeError.too_big entry.size)), refl, ok, λ w k. ground arith)
    | inr fits ↦ rw fits (
        read_chain_lem (b.clusters + 1) s entry.first_cluster 0 entry.size [] ok (omega arith)
          (omega arith) (omega arith))
  ]
