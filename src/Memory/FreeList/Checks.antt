-- ===== src/Memory/FreeList/Checks.antt =====
-- The steps of the walk of `check`, one for each answer.
use aion_so.Base.{
  ℕ, zero, suc, ◌+◌, ◌-◌, ◌≤◌, ◌<◌, ◌≡◌, ◌≢◌, ◌⊎◌, inl, inr, refl, ap, max, true, false, Option,
  none, some, List, [], ◌∷◌, ◌==◌, ==→ne, ==_of_ne, arith, Bool-cases, length, add64, ◌>>=◌,
}
use aion_so.Memory.FreeList.{Hole, Heap, is_hole_addr, read_hole}
use aion_so.Memory.FreeList.Holes.{Extent, Chain, Ordered, total, read-some}
use aion_so.Memory.FreeList.Check.{
  Fault, HeapCorruption, Report, ok, err, conclude, not_after, is_outside, is_impossible,
  check_from,
}

abbrev pub largest_of : List Extent → ℕ
largest_of [] = 0
largest_of (e ∷ es) = max e.size (largest_of es)

-- Where the next hole may begin.
abbrev pub low : Heap → Option ℕ → ℕ
low h none = h.start
low h (some end') = end' + 1

-- The holes from `current` on are in order, and there is room for them in `n` rounds and in the count.
abbrev pub Sound : ℕ → Heap → ℕ → ℕ → ℕ → List Extent → Type 0
Sound n h current lo free es =
    Chain h.memory current es × Ordered lo h.end' es × (length es ≤ n) × (free + total es ≡ h.free)

abbrev pub Checked : ℕ → Heap → ℕ → ℕ → ℕ → ℕ → ℕ → Option Report → Type 0
Checked n h current lo free holes largest answer =
    ((e : HeapCorruption) × (answer ≡ some (err e))
      × ((es : List Extent) → Sound n h current lo free es → ⊥))
    ⊎ ((es : List Extent) × Sound n h current lo free es
        × (answer
            ≡ some (
                ok (record {
                  size = h.end' - h.start;
                  free = h.free;
                  holes = holes + length es;
                  largest_hole = max largest (largest_of es);
                }))))

null-nil :
    (m : ℕ → Hole) (current lo hi : ℕ) (es : List Extent)
    → 0 < lo
    → current ≡ 0
    → Chain m current es
    → Ordered lo hi es
    → es ≡ []
null-nil m current lo hi [] pos e c o = refl
null-nil m current lo hi (x ∷ es) pos e (at, _, _) (le, _, _, _, _, _) = absurd (omega arith)

pub concluded :
    (n : ℕ) (h : Heap) (lo free holes largest : ℕ)
    → 0 < lo
    → Checked n h 0 lo free holes largest (conclude h free holes largest)
unfolding conclude
concluded n h lo free holes largest pos = elim (Bool-cases (free == h.free)) [
  | inl same ↦ inr ([], (refl, tt, omega arith, ground (arith, same)), ground (arith, same))
  | inr other ↦ inl (
    record { what = Fault.wrong_count; at = 0 },
    rw other refl,
    λ es (c, o, few, sum).
        ==→ne free h.free other
          (omega (arith, sum, ap total (null-nil h.memory 0 lo h.end' es pos refl c o))),
  )
]

pub check-end :
    (n : ℕ) (h : Heap) (p : Option ℕ) (free holes largest : ℕ)
    → check_from n h 0 p free holes largest ≡ conclude h free holes largest
unfolding check_from
check-end zero h p free holes largest = refl
check-end (suc n) h p free holes largest = refl

pub check-long :
    (h : Heap) (current : ℕ) (p : Option ℕ) (free holes largest : ℕ)
    → current ≢ 0
    → check_from 0 h current p free holes largest
      ≡ some (err (record { what = Fault.too_long; at = current }))
unfolding check_from
check-long h current p free holes largest ne = rw (==_of_ne current 0 ne) refl

module _ (n : ℕ) (h : Heap) (current : ℕ) (p : Option ℕ) (free holes largest : ℕ)
    (ne : current ≢ 0) where
  pub check-outside :
      is_outside h current ≡ true
      → check_from (suc n) h current p free holes largest
        ≡ some (err (record { what = Fault.outside; at = current }))
  unfolding check_from
  check-outside out = rw (==_of_ne current 0 ne) (rw out refl)

  pub check-order :
      is_outside h current ≡ false
      → not_after p current ≡ true
      → check_from (suc n) h current p free holes largest
        ≡ some (err (record { what = Fault.out_of_order; at = current }))
  unfolding check_from
  check-order out order = rw (==_of_ne current 0 ne) (rw out (rw order refl))

  pub check-size :
      is_outside h current ≡ false
      → not_after p current ≡ false
      → is_hole_addr h current ≡ true
      → is_impossible h current (h.memory current).size ≡ true
      → check_from (suc n) h current p free holes largest
        ≡ some (err (record { what = Fault.impossible_size; at = current }))
  unfolding check_from
  check-size out order good size =
      rw (==_of_ne current 0 ne)
        (rw out (rw order (rw (read-some h current good, read_hole) (rw (size, ◌>>=◌) refl))))

  pub check-walk :
      is_outside h current ≡ false
      → not_after p current ≡ false
      → is_hole_addr h current ≡ true
      → is_impossible h current (h.memory current).size ≡ false
      → check_from (suc n) h current p free holes largest
        ≡ check_from n h
            (h.memory current).next
            (some (add64 current (h.memory current).size))
            (add64 free (h.memory current).size)
            (add64 holes 1)
            (max largest (h.memory current).size)
  unfolding check_from
  check-walk out order good size =
      rw (==_of_ne current 0 ne)
        (rw out (rw order (rw (read-some h current good, read_hole) (rw (size, ◌>>=◌) refl))))
