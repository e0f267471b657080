-- ===== src/Memory/FreeList/Settling.antt =====
-- Where the search for a block's place stops, and what happens there.
use aion_so.Base.{
  ℕ, suc, ◌+◌, ◌%◌, ◌≤◌, ◌<◌, ◌≡◌, ◌≢◌, ◌⊎◌, inl, inr, refl, ap, ◌∙◌, true, false, ◌||◌, Option,
  none, some, List, ◌∷◌, ltb, ◌==◌, ==→eq, ==_of_ne, arith, Bool-cases, add64, ◌>>=◌,
}
use aion_so.Memory.FreeList.{
  Hole, Heap, granule, is_hole_addr, read_hole, free_block, seek, overlaps_free,
}
use aion_so.Memory.FreeList.Holes.{
  Extent, Chain, Ordered, inside, is_free, IsRegion, free-from, hole_addr, read-some,
}
use aion_so.Memory.FreeList.Merging.{
  Unfree, Overlaps, runs_into, runs_into-false, runs_into-true, overlaps_free-some, Joined,
  merge_next-Joined,
}
use aion_so.Memory.FreeList.Placing.{
  Placed, free_block-overlap, free_block-apart, merge_prev-touching, merge_prev-apart,
  place_touching, place_apart,
}

pub seek-end : (fuel : ℕ) (h : Heap) (b prev : ℕ) → seek (suc fuel) h b prev 0 ≡ some (prev, 0)
unfolding seek
seek-end fuel h b prev = refl

pub seek-stop :
    (fuel : ℕ) (h : Heap) (b prev current : ℕ)
    → b ≤ current
    → seek (suc fuel) h b prev current ≡ some (prev, current)
unfolding seek
seek-stop fuel h b prev current le =
    let over : ltb current b ≡ false = ground arith in rw over (ground arith)

pub seek-walk :
    (fuel : ℕ) (h : Heap) (b prev current : ℕ)
    → current ≢ 0
    → current < b
    → is_hole_addr h current ≡ true
    → seek (suc fuel) h b prev current ≡ seek fuel h b current (h.memory current).next
unfolding seek
seek-walk fuel h b prev current ne lt ok =
    let under : ltb current b ≡ true = ground arith in
    rw (==_of_ne current 0 ne) (rw under (rw (read-some h current ok, read_hole) refl))

-- What follows the search.
abbrev pub settle : Heap → ℕ → ℕ → Option (ℕ × ℕ) → Option Heap
settle h b size found = do (prev, current) ← found; free_block h b size prev current

pub Unfree-cons :
    (a s b n : ℕ) (es : List Extent)
    → a + s ≤ b
    → Unfree es b n
    → (x : ℕ) → inside b n x ≡ true
    → (inside a s x || is_free es x) ≡ false
Unfree-cons a s b n es le u x within = ground (arith, u x within)

pub Unfree-behind : (b n hi : ℕ) (es : List Extent) → Ordered (b + n) hi es → Unfree es b n
Unfree-behind b n hi es o x within = elim (Bool-cases (is_free es x)) [
  | inr off ↦ off
  | inl on ↦ let far : b + n ≤ x = free-from (b + n) hi x es o on in absurd (ground arith)
]

-- The answer, with the holes `holes` from `first` on: the block overlaps one, or it is placed.
abbrev pub Settled : Heap → ℕ → ℕ → ℕ → ℕ → List Extent → Option Heap → Type 0
Settled h lo first b size holes answer =
    ((answer ≡ none) × Overlaps holes b size)
    ⊎ ((m : ℕ → Hole) × (holes' : List Extent) × (answer
          ≡ some (record h { memory = m; free = add64 h.free size }))
        × Unfree holes b size
        × Placed h lo first b size holes m holes')

module _ (h : Heap) (b size : ℕ) (r : IsRegion h) (ab : b % granule ≡ 0)
    (whole : size % granule ≡ 0) (big : granule ≤ size) (from : h.start ≤ b)
    (inside_heap : b + size ≤ h.end') where
  -- The search stopped behind `e`.
  pub settle_behind :
      (lo current : ℕ) (e : Extent) (es : List Extent)
      → h.start ≤ lo
      → (h.memory e.addr).size ≡ e.size
      → (h.memory e.addr).next ≡ current
      → Chain h.memory current es
      → Ordered lo h.end' (e ∷ es)
      → e.addr < b
      → Ordered b h.end' es
      → Settled h lo e.addr b size (e ∷ es) (free_block h b size e.addr current)
  settle_behind lo current e es lo_h size_e next c (le, ae, se, big_e, hi, o) under ob =
      let ne : e.addr ≢ 0 = omega (arith, r.not_null) in
      let ok : is_hole_addr h e.addr ≡ true = hole_addr h e.addr r ae (omega arith) (omega arith) in
      let sum : add64 e.addr (h.memory e.addr).size ≡ e.addr + e.size =
        omega (arith, size_e, r.fits) in
      let asked : overlaps_free h e.addr b (b + size) current
          ≡ some (ltb b (e.addr + e.size) || runs_into current (b + size)) =
        overlaps_free-some h e.addr b (b + size) current ne ok
        ∙ ap (λ n. some (ltb b n || runs_into current (b + size))) sum in
      elim (Bool-cases (ltb b (e.addr + e.size))) [
        | inl over ↦ inl (
          free_block-overlap h b size e.addr current
              (asked ∙ ap (λ y. some (y || runs_into current (b + size))) over),
          (b, ground arith, ground arith),
        )
        | inr clear ↦ elim (Bool-cases (runs_into current (b + size))) [
          | inl over ↦
              let (x, within, on) = runs_into-true h.memory current b size h.end' es c ob over in
              inl (
                free_block-overlap h b size e.addr current (asked ∙ ground (arith, clear, over)),
                (x, within, ground (arith, on)),
              )
          | inr apart ↦
              let behind : Ordered (b + size) h.end' es =
                runs_into-false h.memory current b size b h.end' es (omega arith) c ob apart in
              let (merged, rest', j) =
                merge_next-Joined h b size r whole (omega arith) from inside_heap current es c
                  behind in
              let asked' : overlaps_free h e.addr b (b + size) current ≡ some false =
                asked ∙ ground (arith, clear, apart) in
              let used : Unfree (e ∷ es) b size =
                Unfree-cons e.addr e.size b size es (ground arith)
                  (Unfree-behind b size h.end' es behind) in
              let j' : Joined h b size (h.memory e.addr).next es merged rest' = rw next j in
              elim (Bool-cases (e.addr + e.size == b)) [
                | inl touch ↦
                    let t : e.addr + e.size ≡ b = ==→eq _ _ touch in
                    inr (
                      _,
                      _,
                      free_block-apart h _ b size e.addr current merged asked' j.done
                          (merge_prev-touching h e.addr b merged ne ok (sum ∙ t)),
                      used,
                      place_touching h b size r ab whole big from inside_heap lo e es rest' merged
                          size_e (le, ae, se, big_e, hi, o) t j',
                    )
                | inr gap ↦ inr (
                  _,
                  _,
                  free_block-apart h _ b size e.addr current merged asked' j.done (
                      merge_prev-apart h e.addr b merged ne (omega arith) ok
                        (hole_addr h b r ab from (omega arith)) (ap (λ n. n == b) sum ∙ gap)),
                  used,
                  place_apart h b size r ab whole big from inside_heap lo e es rest' merged size_e
                      (le, ae, se, big_e, hi, o) (ground (arith, clear, gap)) j',
                )
              ]
        ]
      ]
