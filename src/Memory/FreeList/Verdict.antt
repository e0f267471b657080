-- ===== src/Memory/FreeList/Verdict.antt =====
-- `check` accepts exactly the valid heaps.
use aion_so.Base.{
  ℕ, zero, suc, ◌+◌, ◌-◌, ◌/◌, ◌%◌, ◌≤◌, ◌≡◌, ◌≢◌, ◌⊎◌, inl, inr, refl, ◌∙◌, max, true, Option,
  none, some, List, ◌∷◌, ◌==◌, ==→eq, ==→ne, arith, Bool-cases, length, add64,
}
use aion_so.Memory.FreeList.{Heap, is_hole_addr}
use aion_so.Memory.FreeList.Holes.{Extent, IsRegion, IsValid, hole_addr, length-rounds}
use aion_so.Memory.FreeList.Check.{
  Fault, HeapCorruption, Report, ok, err, not_after, is_outside, is_impossible, check_from, check,
}
use aion_so.Memory.FreeList.Checks.{
  largest_of, low, Checked, concluded, check-end, check-long, check-outside, check-order,
  check-size, check-walk,
}
use aion_so.Memory.FreeList.Faults.{
  Sound-first, Sound-rest, report_path, inside_lem, outside_lem, possible_lem, impossible_lem,
  not_after-low, low-not_after, max_assoc,
}

module _ (h : Heap) (r : IsRegion h) where
  -- The hole at `current` is good, and the walk goes on behind it.
  Checked-cons :
      (n current lo free holes largest : ℕ) (answer : Option Report)
      → lo ≤ current
      → current % 16 ≡ 0
      → 16 ≤ (h.memory current).size
      → (h.memory current).size % 16 ≡ 0
      → current + (h.memory current).size ≤ h.end'
      → current ≢ 0
      → Checked n h
          (h.memory current).next
          (current + (h.memory current).size + 1)
          (free + (h.memory current).size)
          (holes + 1)
          (max largest (h.memory current).size)
          answer
      → Checked (suc n) h current lo free holes largest answer
  Checked-cons n current lo free holes largest answer le ac big whole hi ne (inl (e, bad, none')) =
      inl (
        e,
        bad,
        λ es sound.
            let (rest, sound') = Sound-rest n h current lo free es ne sound in none' rest sound',
      )
  Checked-cons n current lo free holes largest answer le ac big whole hi ne
        (inr (es, (c, o, few, sum), good)) =
      let size : ℕ = (h.memory current).size in
      inr (
        record { addr = current; size = size } ∷ es,
        ((refl, refl, c), (le, ac, whole, big, hi, o), omega arith, omega (arith, sum)),
        good
            ∙ report_path h (holes + 1 + length es) (holes + suc (length es)) _ _ (omega arith)
                (max_assoc largest size (largest_of es)),
      )

  check_from-Checked :
      (n current : ℕ) (p : Option ℕ) (free holes largest : ℕ)
      → h.start ≤ low h p
      → free ≤ low h p
      → holes ≤ low h p
      → Checked n h current
          (low h p)
          free
          holes
          largest
          (check_from n h current p free holes largest)
  check_from-Checked zero current p free holes largest lo free-le holes-le =
      elim (Bool-cases (current == 0)) [
        | inl null ↦ rw (==→eq current 0 null) (
            rw (check-end zero h p free holes largest)
              (concluded zero h (low h p) free holes largest (omega (arith, r.not_null))))
        | inr some' ↦ inl (
          record { what = Fault.too_long; at = current },
          check-long h current p free holes largest (==→ne current 0 some'),
          λ es sound. absurd (
              omega
                (arith, Sound-first 0 h current (low h p) free es (==→ne current 0 some') sound)),
        )
      ]
  check_from-Checked (suc n) current p free holes largest lo free-le holes-le =
      elim (Bool-cases (current == 0)) [
        | inl null ↦ rw (==→eq current 0 null) (
            rw (check-end (suc n) h p free holes largest)
              (concluded (suc n) h (low h p) free holes largest (omega (arith, r.not_null))))
        | inr some' ↦
            let ne : current ≢ 0 = ==→ne current 0 some' in
            elim (Bool-cases (is_outside h current)) [
              | inl out ↦ inl (
                record { what = Fault.outside; at = current },
                check-outside n h current p free holes largest ne out,
                λ es sound.
                    let (ac, le, big, whole, hi, _) =
                      Sound-first (suc n) h current (low h p) free es ne sound in
                    outside_lem h current out ac (omega arith) (omega arith),
              )
              | inr in' ↦
                  let (ac, from, below) = inside_lem h current in' in
                  let good : is_hole_addr h current ≡ true =
                    hole_addr h current r ac from (omega (arith, r.end_aligned)) in
                  elim (Bool-cases (not_after p current)) [
                    | inl order ↦ inl (
                      record { what = Fault.out_of_order; at = current },
                      check-order n h current p free holes largest ne in' order,
                      λ es sound. absurd (
                          omega (
                            arith,
                            not_after-low h p current order,
                            Sound-first (suc n) h current (low h p) free es ne sound,
                          )),
                    )
                    | inr later ↦
                        elim (Bool-cases (is_impossible h current (h.memory current).size)) [
                          | inl bad ↦ inl (
                            record { what = Fault.impossible_size; at = current },
                            check-size n h current p free holes largest ne in' later good bad,
                            λ es sound.
                                let (_, _, big, whole, hi, _) =
                                  Sound-first (suc n) h current (low h p) free es ne sound in
                                impossible_lem h current (h.memory current).size bad big whole hi,
                          )
                          | inr possible ↦
                              let (big, whole, hi) =
                                possible_lem h current (h.memory current).size below possible in
                              let le : low h p ≤ current = low-not_after h p current from later in
                              let e₁ : add64 current (h.memory current).size
                                  ≡ current + (h.memory current).size =
                                omega (arith, r.fits) in
                              let e₂ : add64 free (h.memory current).size
                                  ≡ free + (h.memory current).size =
                                omega (arith, r.fits) in
                              let e₃ : add64 holes 1 ≡ holes + 1 = omega (arith, r.fits) in
                              rw
                                (check-walk n h current p free holes largest ne in' later good
                                  possible)
                                (Checked-cons n current (low h p) free holes largest _ le ac big
                                  whole hi ne
                                  (rw (e₁, e₂, e₃)
                                    (check_from-Checked n (h.memory current).next
                                      (some (current + (h.memory current).size))
                                      (free + (h.memory current).size) (holes + 1)
                                      (max largest (h.memory current).size) (omega arith)
                                      (omega arith) (omega arith))))
                        ]
                  ]
            ]
      ]

-- On a heap whose region is in order, `check` always answers. It reports corruption exactly when no
-- list of holes makes the heap valid; otherwise the heap is valid with some holes, and it reports
-- the size of the heap, the free bytes, how many holes there are and the largest of them.
pub check_lem :
    (h : Heap)
    → IsRegion h
    → ((e : HeapCorruption) × (check h ≡ some (err e))
        × ((holes : List Extent) → IsValid h holes → ⊥))
      ⊎ ((holes : List Extent) × IsValid h holes
          × (check h
              ≡ some (
                  ok (record {
                    size = h.end' - h.start;
                    free = h.free;
                    holes = length holes;
                    largest_hole = largest_of holes;
                  }))))
unfolding check
check_lem h r =
    elim (check_from-Checked h r ((h.end' - h.start) / 16) h.head none 0 0 0 (omega arith)
      (omega arith) (omega arith)) [
        | inl (e, bad, none') ↦ inl (
          e,
          bad,
          λ holes v. none' holes (
            v.chain,
            v.ordered,
            omega (arith, length-rounds h holes r v.ordered),
            omega (arith, v.counted),
          ),
        )
        | inr (holes, (c, o, few, sum), good) ↦ inr (
          holes,
          record { region = r; chain = c; ordered = o; counted = omega (arith, sum) },
          good
              ∙ report_path h (0 + length holes) (length holes) (max 0 (largest_of holes))
                  (largest_of holes) (omega arith) (omega arith),
        )
      ]
