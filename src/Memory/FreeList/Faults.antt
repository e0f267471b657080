-- ===== src/Memory/FreeList/Faults.antt =====
-- What a sound list says of its first hole, and what each test of `check` says of one.
use aion_so.Base.{
  ℕ, suc, ◌+◌, ◌-◌, ◌%◌, ◌≤◌, ◌<◌, ◌≡◌, ◌≢◌, refl, max, true, false, Option, none, some, List, [],
  ◌∷◌, arith,
}
use aion_so.Memory.FreeList.{Heap}
use aion_so.Memory.FreeList.Holes.{Extent}
use aion_so.Memory.FreeList.Check.{ok, not_after, is_outside, is_impossible}
use aion_so.Memory.FreeList.Checks.{low, Sound}

-- What a sound list says of the hole at its start, and of the rest of it.
pub Sound-first :
    (n : ℕ) (h : Heap) (current lo free : ℕ) (es : List Extent)
    → current ≢ 0
    → Sound n h current lo free es
    → let size = (h.memory current).size in
      (current % 16 ≡ 0)
      × (lo ≤ current)
      × (16 ≤ size)
      × (size % 16 ≡ 0)
      × (current + size ≤ h.end')
      × (0 < n)
Sound-first n h current lo free [] ne (at, _, _, _) = absurd (ne at)
Sound-first n h current lo free (e ∷ es) ne ((at, size, c), (le, ae, se, big, hi, o), few, sum) = (
  rw at ae,
  omega (arith, at),
  omega (arith, size),
  rw size se,
  omega (arith, at, size),
  omega arith,
)

pub Sound-rest :
    (n : ℕ) (h : Heap) (current lo free : ℕ) (es : List Extent)
    → current ≢ 0
    → Sound (suc n) h current lo free es
    → let size = (h.memory current).size in
      (rest : List Extent) × Sound n h
        (h.memory current).next
        (current + size + 1)
        (free + size)
        rest
Sound-rest n h current lo free [] ne (at, _, _, _) = absurd (ne at)
Sound-rest n h current lo free (e ∷ es) ne ((at, size, c), (le, ae, se, big, hi, o), few, sum) =
    (es, (c, rw (size, at) o, omega arith, omega (arith, size)))

pub report_path :
    (h : Heap) (a b c d : ℕ)
    → a ≡ b
    → c ≡ d
    → some (ok (record { size = h.end' - h.start; free = h.free; holes = a; largest_hole = c }))
      ≡ some (ok (record { size = h.end' - h.start; free = h.free; holes = b; largest_hole = d }))
report_path h a b c d p q = rw (p, q) refl

pub inside_lem :
    (h : Heap) (current : ℕ)
    → is_outside h current ≡ false
    → (current % 16 ≡ 0) × (h.start ≤ current) × (current < h.end')
inside_lem h current out = ground arith

pub outside_lem :
    (h : Heap) (current : ℕ)
    → is_outside h current ≡ true
    → current % 16 ≡ 0
    → h.start ≤ current
    → current < h.end'
    → ⊥
outside_lem h current out ac lo hi = ground arith

pub possible_lem :
    (h : Heap) (current size : ℕ)
    → current < h.end'
    → is_impossible h current size ≡ false
    → (16 ≤ size) × (size % 16 ≡ 0) × (current + size ≤ h.end')
possible_lem h current size hi good = ground arith

pub impossible_lem :
    (h : Heap) (current size : ℕ)
    → is_impossible h current size ≡ true
    → 16 ≤ size
    → size % 16 ≡ 0
    → current + size ≤ h.end'
    → ⊥
impossible_lem h current size bad big whole hi = ground arith

pub not_after-low :
    (h : Heap) (p : Option ℕ) (current : ℕ) → not_after p current ≡ true → current < low h p
not_after-low h none current order = absurd (ground arith)
not_after-low h (some e) current order = ground arith

pub low-not_after :
    (h : Heap) (p : Option ℕ) (current : ℕ)
    → h.start ≤ current
    → not_after p current ≡ false
    → low h p ≤ current
low-not_after h none current le order = le
low-not_after h (some e) current le order = ground arith

pub max_assoc : (a b c : ℕ) → max (max a b) c ≡ max a (max b c)
max_assoc a b c = omega arith
