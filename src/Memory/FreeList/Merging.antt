-- ===== src/Memory/FreeList/Merging.antt =====
-- What `deallocate` does where it stops: the overlap it refuses, and the merge with the hole that
-- follows.
use aion_so.Base.{
  ℕ, ◌+◌, ◌%◌, ◌≤◌, ◌<◌, ◌≡◌, ◌≢◌, inl, inr, refl, ap, ◌∙◌, Bool, true, false, not, ◌&&◌, ◌||◌,
  some, List, [], ◌∷◌, ltb, ◌==◌, ==→eq, ==→ne, ==_of_ne, ==_refl, arith, Bool-cases, add64,
}
use aion_so.Memory.FreeList.{
  Hole, Heap, granule, is_hole_addr, read_hole, merge_next, overlaps_free,
}
use aion_so.Memory.FreeList.Holes.{
  Extent, Chain, Ordered, inside, is_free, total, IsRegion, Ordered-from, hole_addr, read-some,
}

-- No byte of the block is free, or one is.
abbrev pub Unfree : List Extent → ℕ → ℕ → Type 0
Unfree holes b size = (x : ℕ) → inside b size x ≡ true → is_free holes x ≡ false

abbrev pub Overlaps : List Extent → ℕ → ℕ → Type 0
Overlaps holes b size = (x : ℕ) × (inside b size x ≡ true) × (is_free holes x ≡ true)

-- The next hole begins inside the block.
abbrev pub runs_into : ℕ → ℕ → Bool
runs_into current block_end = not (current == 0) && ltb current block_end

pub runs_into-false :
    (m : ℕ → Hole) (current b size lo hi : ℕ) (rest : List Extent)
    → 0 < b
    → Chain m current rest
    → Ordered b hi rest
    → runs_into current (b + size) ≡ false
    → Ordered (b + size) hi rest
runs_into-false m current b size lo hi [] pos at o h = tt
runs_into-false m current b size lo hi (e ∷ es) pos (at, _, _) (le, ae, se, big, end', o) h =
    let far : b + size ≤ e.addr = ground (arith, at) in (far, ae, se, big, end', o)

pub runs_into-true :
    (m : ℕ → Hole) (current b size hi : ℕ) (rest : List Extent)
    → Chain m current rest
    → Ordered b hi rest
    → runs_into current (b + size) ≡ true
    → Overlaps rest b size
runs_into-true m current b size hi [] at o h = absurd (ground (arith, at))
runs_into-true m current b size hi (e ∷ es) (at, _, _) (le, ae, se, big, end', o) h =
    (e.addr, ground (arith, at), ground arith)

pub overlaps_free-none :
    (h : Heap) (b b_end current : ℕ)
    → overlaps_free h 0 b b_end current ≡ some (runs_into current b_end)
unfolding overlaps_free
overlaps_free-none h b b_end current = refl

pub overlaps_free-some :
    (h : Heap) (prev b b_end current : ℕ)
    → prev ≢ 0
    → is_hole_addr h prev ≡ true
    → overlaps_free h prev b b_end current
      ≡ some (ltb b (add64 prev (h.memory prev).size) || runs_into current b_end)
unfolding overlaps_free
overlaps_free-some h prev b b_end current ne ok =
    rw (==_of_ne prev 0 ne) (rw (read-some h prev ok, read_hole) refl)

-- The block joined with what follows: the size and the next hole, and the holes behind.
pub record Joined (h : Heap) (b size current : ℕ) (rest : List Extent) (merged : Hole)
    (rest' : List Extent) : Type 0 where
  pub done : merge_next h b size current ≡ some merged
  pub chain : Chain h.memory merged.next rest'
  pub ordered : Ordered (b + merged.size + 1) h.end' rest'
  pub whole : merged.size % granule ≡ 0
  pub grown : size ≤ merged.size
  pub within : b + merged.size ≤ h.end'
  pub free :
      (x : ℕ) → (inside b merged.size x || is_free rest' x) ≡ (inside b size x || is_free rest x)
  pub count : merged.size + total rest' ≡ size + total rest

merge_next-apart :
    (h : Heap) (b size current : ℕ)
    → (not (current == 0) && (b + size == current)) ≡ false
    → merge_next h b size current ≡ some (record { size = size; next = current })
unfolding merge_next
merge_next-apart h b size current apart = rw apart refl

merge_next-touching :
    (h : Heap) (b size current : ℕ)
    → current ≢ 0
    → b + size ≡ current
    → is_hole_addr h current ≡ true
    → merge_next h b size current
      ≡ some (record { size = add64 size (h.memory current).size; next = (h.memory current).next })
unfolding merge_next
merge_next-touching h b size current ne touch ok =
    rw (==_of_ne current 0 ne)
      (rw touch (rw (==_refl current) (rw (read-some h current ok, read_hole) refl)))

pub joined_bytes :
    (b n s x : ℕ) (others : Bool)
    → (inside b (n + s) x || others) ≡ (inside b n x || (inside (b + n) s x || others))
joined_bytes b n s x true = ground arith
joined_bytes b n s x false = ground arith

module _ (h : Heap) (b size : ℕ) (r : IsRegion h) (whole : size % granule ≡ 0) (pos : 0 < b)
    (from : h.start ≤ b) (inside_heap : b + size ≤ h.end') where
  pub merge_next-Joined :
      (current : ℕ) (rest : List Extent)
      → Chain h.memory current rest
      → Ordered (b + size) h.end' rest
      → (merged : Hole) × (rest' : List Extent) × Joined h b size current rest merged rest'
  merge_next-Joined current [] at o = (
    record { size = size; next = current },
    [],
    record {
      done = merge_next-apart h b size current (ground (arith, at));
      chain = at;
      ordered = tt;
      whole = whole;
      grown = omega arith;
      within = inside_heap;
      free = λ x. refl;
      count = refl;
    },
  )
  merge_next-Joined current (e ∷ es) (at, at_size, c) (le, ae, se, big, hi, o) =
      elim (Bool-cases (b + size == current)) [
        | inr apart ↦ (
          record { size = size; next = current },
          e ∷ es,
          record {
            done = merge_next-apart h b size current (ground (arith, apart));
            chain = (at, at_size, c);
            ordered = (omega (arith, at, ==→ne (b + size) current apart), ae, se, big, hi, o);
            whole = whole;
            grown = omega arith;
            within = inside_heap;
            free = λ x. refl;
            count = refl;
          },
        )
        | inl touch ↦
            let t : b + size ≡ current = ==→eq (b + size) current touch in
            let sum : add64 size (h.memory current).size ≡ size + e.size =
              omega (arith, at_size, at, t, r.fits) in
            (
              record { size = add64 size (h.memory current).size; next = (h.memory current).next },
              es,
              record {
                done = merge_next-touching h b size current (omega (arith, t)) t (
                    ap (is_hole_addr h) at
                    ∙ hole_addr h e.addr r ae (omega (arith, t, at)) (omega arith));
                chain = c;
                ordered =
                    Ordered-from (e.addr + e.size + 1) _ h.end' es (omega (arith, sum, t, at)) o;
                whole = omega (arith, sum);
                grown = omega (arith, sum);
                within = omega (arith, sum, t, at);
                free = λ x.
                    ap (λ n. inside b n x || is_free es x) sum
                    ∙ (joined_bytes b size e.size x (is_free es x)
                        ∙ ap (λ a. inside b size x || (inside a e.size x || is_free es x))
                            (t ∙ at));
                count = omega (arith, sum);
              },
            )
      ]
