-- ===== src/Memory/FreeList/Releasing.antt =====
-- Giving a block back once it is known to be one of the heap's.
use aion_so.Base.{
  ℕ, zero, suc, ◌+◌, ◌%◌, ◌≤◌, ◌<◌, ◌≡◌, ◌⊎◌, inl, inr, refl, sym, ap, ◌∙◌, true, ◌||◌, Option,
  none, some, List, [], ◌∷◌, ltb, arith, Bool-cases, length, add64,
}
use aion_so.Memory.FreeList.{Hole, Heap, granule, is_hole_addr, update, free_block, seek}
use aion_so.Memory.FreeList.Holes.{
  Extent, Ordered, inside, is_free, total, IsRegion, IsValid, Chain-congr, hole_addr, total-le,
}
use aion_so.Memory.FreeList.Keeping.{update-ne, update-same}
use aion_so.Memory.FreeList.Merging.{
  Unfree, Overlaps, runs_into, runs_into-false, runs_into-true, overlaps_free-none,
  merge_next-Joined,
}
use aion_so.Memory.FreeList.Placing.{free_block-overlap, free_block-apart, merge_prev-null}
use aion_so.Memory.FreeList.Settling.{
  settle, seek-end, seek-stop, seek-walk, Unfree-behind, Settled,
}
use aion_so.Memory.FreeList.Deallocate.{settle_walk}

-- The block overlaps free memory, or it is free now and the heap is valid.
abbrev pub Released : Heap → List Extent → ℕ → ℕ → Option Heap → Type 0
Released h holes b size answer =
    ((answer ≡ none) × Overlaps holes b size)
    ⊎ ((h' : Heap) × (holes' : List Extent) × (answer ≡ some h')
        × Unfree holes b size
        × IsValid h' holes'
        × ((x : ℕ) → is_free holes' x ≡ (is_free holes x || inside b size x))
        × (h'.free ≡ h.free + size))

moved_region :
    (h : Heap) (head free : ℕ) (m : ℕ → Hole)
    → IsRegion h
    → IsRegion (record h { head = head; memory = m; free = free })
moved_region h head free m r = record {
  start_aligned = r.start_aligned;
  end_aligned = r.end_aligned;
  not_null = r.not_null;
  ends = r.ends;
  fits = r.fits;
}

add-free :
    (h : Heap) (holes holes' : List Extent) (size : ℕ)
    → IsValid h holes
    → Ordered h.start h.end' holes'
    → total holes' ≡ total holes + size
    → add64 h.free size ≡ h.free + size
add-free h holes holes' size v o count = omega (
  arith,
  count,
  v.counted,
  total-le h.start h.end' holes' o (omega (arith, v.region.ends)),
  v.region.fits,
  v.region.not_null,
  v.region.ends,
)

module _ (h : Heap) (b size : ℕ) (ab : b % granule ≡ 0) (whole : size % granule ≡ 0)
    (big : granule ≤ size) (from : h.start ≤ b) (inside_heap : b + size ≤ h.end') where
  -- The block goes in front of every hole.
  release_front :
      (holes : List Extent)
      → IsValid h holes
      → Ordered b h.end' holes
      → Released h holes b size (free_block h b size 0 h.head)
  release_front holes v ob = elim (Bool-cases (runs_into h.head (b + size))) [
    | inl over ↦ inl (
      free_block-overlap h b size 0 h.head
          (overlaps_free-none h b (b + size) h.head ∙ ap some over),
      runs_into-true h.memory h.head b size h.end' holes v.chain ob over,
    )
    | inr apart ↦
        let behind : Ordered (b + size) h.end' holes =
          runs_into-false h.memory h.head b size b h.end' holes (omega (arith, v.region.not_null))
            v.chain ob apart in
        let (merged, rest', j) =
          merge_next-Joined h b size v.region whole (omega (arith, v.region.not_null)) from
            inside_heap h.head holes v.chain behind in
        let m : ℕ → Hole = update h.memory b merged in
        let holes' : List Extent = record { addr = b; size = merged.size } ∷ rest' in
        let ordered : Ordered h.start h.end' holes' =
          (from, ab, j.whole, omega (arith, j.grown), j.within, j.ordered) in
        let sum : add64 h.free size ≡ h.free + size =
          add-free h holes holes' size v ordered (omega (arith, j.count)) in
        inr (
          record h { head = b; memory = m; free = add64 h.free size },
          holes',
          free_block-apart h (record h { head = b; memory = m }) b size 0 h.head merged
              (overlaps_free-none h b (b + size) h.head ∙ ap some apart) j.done
              (merge_prev-null h b merged (hole_addr h b v.region ab from (omega arith))),
          Unfree-behind b size h.end' holes behind,
          record {
            region = moved_region h b (add64 h.free size) m v.region;
            chain = (
              refl,
              ap (λ (n : Hole). n.size) (update-same h.memory b merged),
              rw (update-same h.memory b merged) (
                  Chain-congr h.memory m (b + merged.size + 1) h.end' merged.next rest' j.ordered
                    (λ x above. update-ne h.memory b merged x (omega arith)) j.chain),
            );
            ordered = ordered;
            counted = omega (arith, sum, j.count, v.counted);
          },
          (λ x. ground (arith, j.free x)),
          sum,
        )
  ]

  release_behind :
      (e : Extent) (es : List Extent) (answer : Option Heap)
      → IsValid h (e ∷ es)
      → Settled h h.start e.addr b size (e ∷ es) answer
      → Released h (e ∷ es) b size answer
  release_behind e es answer v (inl gone) = inl gone
  release_behind e es answer v (inr (m, holes', done, used, p)) =
      let sum : add64 h.free size ≡ h.free + size =
        add-free h (e ∷ es) holes' size v p.ordered p.count in
      inr (
        record h { memory = m; free = add64 h.free size },
        holes',
        done,
        used,
        record {
          region = moved_region h h.head (add64 h.free size) m v.region;
          chain = rw (v.chain.0) p.chain;
          ordered = p.ordered;
          counted = omega (arith, sum, p.count, v.counted);
        },
        p.free,
        sum,
      )

  found_front :
      (fuel : ℕ)
      → seek fuel h b 0 h.head ≡ some (0, h.head)
      → settle h b size (seek fuel h b 0 h.head) ≡ free_block h b size 0 h.head
  found_front fuel e = ap (settle h b size) e

  pub release :
      (fuel : ℕ) (holes : List Extent)
      → length holes < fuel
      → IsValid h holes
      → Released h holes b size (settle h b size (seek fuel h b 0 h.head))
  release zero holes few v = absurd (omega arith)
  release (suc fuel) [] few v =
      rw
        (found_front (suc fuel) (
          ap (λ a. seek (suc fuel) h b 0 a) v.chain
          ∙ (seek-end fuel h b 0 ∙ ap (λ a. some (0, a)) (sym v.chain))))
        (release_front [] v tt)
  release (suc fuel) (e ∷ es) few v =
      let (at, size_e, c) = v.chain in
      let (le, ae, se, big_e, hi, o) = v.ordered in
      elim (Bool-cases (ltb e.addr b)) [
        | inr after ↦
            let far : b ≤ e.addr = ground (arith, after) in
            rw (found_front (suc fuel) (seek-stop fuel h b 0 h.head (omega (arith, at))))
              (release_front (e ∷ es) v (far, ae, se, big_e, hi, o))
        | inl before ↦
            let ok : is_hole_addr h e.addr ≡ true =
              hole_addr h e.addr v.region ae le (omega arith) in
            let step : seek (suc fuel) h b 0 h.head ≡ seek fuel h b e.addr (h.memory e.addr).next =
              ap (λ a. seek (suc fuel) h b 0 a) at
              ∙ seek-walk fuel h b 0 e.addr (omega (arith, v.region.not_null))
                  (ground (arith, before)) ok in
            release_behind e es _ v (
              rw step (
                settle_walk h b size v.region ab whole big from inside_heap fuel h.start
                  (h.memory e.addr).next e es (omega arith) (omega arith)
                  (ap (λ a. (h.memory a).size) (sym at) ∙ size_e) refl (rw (← at) c) v.ordered
                  (ground (arith, before))))
      ]
