-- ===== src/Memory/FreeList/Init.antt =====
-- `init` makes of its region a valid heap in which everything is free.
use aion_so.Base.{
  ℕ, ◌+◌, ◌-◌, ◌*◌, ◌/◌, ◌%◌, ◌≤◌, ◌<◌, ◌≡◌, ◌⊎◌, inl, inr, refl, ap, ◌∙◌, max, true, false, ◌&&◌,
  ◌||◌, some, List, [], ◌∷◌, arith, leb, ltb, ◌==◌, word_size, Bool-cases,
}
use aion_so.Memory.FreeList.{
  Hole, Heap, granule, empty, init, region_start, region_end, open_region, write_hole, update,
  is_hole_addr,
}
use aion_so.Memory.FreeList.Holes.{Extent, IsRegion, IsValid, inside, is_free, hole_addr}
use aion_so.Memory.FreeList.Keeping.{write-some, update-same}

first_granule :
    (start : ℕ)
    → start + granule ≤ word_size
    → (f : ℕ) × (region_start start ≡ some f) × (start ≤ f) × (f < start + 16) × (f % 16 ≡ 0)
unfolding region_start
first_granule start h = elim (Bool-cases (start % 16 == 0)) [
  | inl already ↦ (start, ground (arith, already), omega arith, omega arith, ground arith)
  | inr off ↦ (
    start + (16 - start % 16),
    ground (arith, off),
    omega arith,
    ground (arith, off),
    omega arith,
  )
]

past_granule :
    (start size : ℕ)
    → start + size < word_size
    → region_end start size ≡ some ((start + size) / 16 * 16)
unfolding region_end
past_granule start size h = ground arith

init-open :
    (memory : ℕ → Hole) (start size first past : ℕ)
    → region_start start ≡ some first
    → region_end start size ≡ some past
    → init (empty memory) start size ≡ open_region (empty memory) start first past
unfolding init empty
init-open memory start size first past e₁ e₂ = rw (e₁, init) (rw (e₂, init) refl)

-- The heap before its one hole is written.
abbrev placed : (ℕ → Hole) → ℕ → ℕ → ℕ → Heap
placed memory base first stop = record {
  base = base;
  start = first;
  end' = stop;
  head = 0;
  free = 0;
  memory = memory;
}

abbrev whole_hole : ℕ → ℕ → Hole
whole_hole first stop = record { size = stop - first; next = 0 }

-- And once it is.
abbrev opened : (ℕ → Hole) → ℕ → ℕ → ℕ → Heap
opened memory base first stop = record {
  base = base;
  start = first;
  end' = stop;
  head = first;
  free = stop - first;
  memory = update memory first (whole_hole first stop);
}

open-small :
    (memory : ℕ → Hole) (base first past : ℕ)
    → max past first - first < 16
    → open_region (empty memory) base first past ≡ some (placed memory base first (max past first))
unfolding open_region empty
open-small memory base first past h =
    let no' : leb 16 (max past first - first) ≡ false = ground arith in rw no' refl

open-large :
    (memory : ℕ → Hole) (base first past : ℕ)
    → 16 ≤ max past first - first
    → is_hole_addr (placed memory base first (max past first)) first ≡ true
    → open_region (empty memory) base first past ≡ some (opened memory base first (max past first))
unfolding open_region empty
open-large memory base first past h ok =
    let yes' : leb 16 (max past first - first) ≡ true = ground arith in
    rw yes'
      (rw (write-some (placed memory base first (max past first)) first _ ok, write_hole) refl)

placed-IsRegion :
    (memory : ℕ → Hole) (base first stop : ℕ)
    → 0 < first
    → first ≤ stop
    → first % 16 ≡ 0
    → stop % 16 ≡ 0
    → stop < word_size
    → IsRegion (placed memory base first stop)
placed-IsRegion memory base first stop pos le af as' fits = record {
  start_aligned = af;
  end_aligned = as';
  not_null = pos;
  ends = le;
  fits = fits;
}

placed-IsValid :
    (memory : ℕ → Hole) (base first stop : ℕ)
    → IsRegion (placed memory base first stop)
    → IsValid (placed memory base first stop) []
placed-IsValid memory base first stop r = record {
  region = r;
  chain = refl;
  ordered = tt;
  counted = refl;
}

opened-IsValid :
    (memory : ℕ → Hole) (base first stop : ℕ)
    → IsRegion (placed memory base first stop)
    → 16 ≤ stop - first
    → IsValid (opened memory base first stop) (record { addr = first; size = stop - first } ∷ [])
opened-IsValid memory base first stop r big = record {
  region = record {
    start_aligned = r.start_aligned;
    end_aligned = r.end_aligned;
    not_null = r.not_null;
    ends = r.ends;
    fits = r.fits;
  };
  chain = (
    refl,
    ap (λ (n : Hole). n.size) (update-same memory first (whole_hole first stop)),
    ap (λ (n : Hole). n.next) (update-same memory first (whole_hole first stop)),
  );
  ordered = (
    omega arith,
    r.start_aligned,
    omega (arith, r.start_aligned, r.end_aligned, r.ends),
    big,
    omega (arith, r.ends),
    tt,
  );
  counted = omega arith;
}

max_cases : (p f limit : ℕ) → p ≤ limit → (max p f ≤ limit) ⊎ (max p f ≡ f)
max_cases p f limit le = ground arith

no_bytes :
    (first stop x : ℕ)
    → stop - first < 16
    → first ≤ stop
    → first % 16 ≡ 0
    → stop % 16 ≡ 0
    → false ≡ (leb first x && ltb x stop)
no_bytes first stop x small le af as' = let e : first ≡ stop = omega arith in ground arith

all_bytes :
    (first stop x : ℕ)
    → first ≤ stop
    → (inside first (stop - first) x || false) ≡ (leb first x && ltb x stop)
all_bytes first stop x le = ground arith

-- On a region that starts above address 0 and ends a granule below the top of the address space,
-- `init` makes a valid heap that keeps all of the region but what the trimming to granules cuts
-- off at either end, and every byte of the heap is free.
pub init_lem :
    (memory : ℕ → Hole) (start size : ℕ)
    → 0 < start
    → start + size + granule ≤ word_size
    → (h : Heap) × (holes : List Extent) × (init (empty memory) start size ≡ some h)
      × IsValid h holes
      × (start ≤ h.start)
      × (h.start < start + granule)
      × ((h.end' ≤ start + size) ⊎ (h.end' ≡ h.start))
      × (start + size < h.end' + granule)
      × ((x : ℕ) → is_free holes x ≡ (leb h.start x && ltb x h.end'))
init_lem memory start size pos fits =
    let (first, e, lo, hi, aligned) = first_granule start (omega arith) in
    let past : ℕ = (start + size) / 16 * 16 in
    let stop : ℕ = max past first in
    let steps : init (empty memory) start size ≡ open_region (empty memory) start first past =
      init-open memory start size first past e (past_granule start size (omega arith)) in
    let region : IsRegion (placed memory start first stop) =
      placed-IsRegion memory start first stop (omega arith) (omega arith) aligned (omega arith)
        (omega arith) in
    let ends : (stop ≤ start + size) ⊎ (stop ≡ first) =
      max_cases past first (start + size) (omega arith) in
    elim (Bool-cases (leb 16 (stop - first))) [
      | inr small ↦ (
        placed memory start first stop,
        [],
        steps ∙ open-small memory start first past (ground (arith, small)),
        placed-IsValid memory start first stop region,
        lo,
        hi,
        ends,
        omega arith,
        λ x. no_bytes first stop x (ground (arith, small)) (omega arith) aligned region.end_aligned,
      )
      | inl large ↦ (
        opened memory start first stop,
        record { addr = first; size = stop - first } ∷ [],
        steps
            ∙ open-large memory start first past (ground (arith, large)) (
                hole_addr (placed memory start first stop) first region aligned (omega arith)
                  (ground (arith, large))),
        opened-IsValid memory start first stop region (ground (arith, large)),
        lo,
        hi,
        ends,
        omega arith,
        λ x. all_bytes first stop x (omega arith),
      )
    ]
