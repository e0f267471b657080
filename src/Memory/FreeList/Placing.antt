-- ===== src/Memory/FreeList/Placing.antt =====
-- Putting a block back behind a hole: joined to it when they touch, or a hole of its own.
use aion_so.Base.{
  ℕ, ◌+◌, ◌%◌, ◌≤◌, ◌<◌, ◌≡◌, ◌≢◌, refl, ap, ◌∙◌, Bool, true, false, ◌||◌, none, some, List, ◌∷◌,
  ◌==◌, ==_of_ne, ==_refl, arith, add64,
}
use aion_so.Memory.FreeList.{
  Hole, Heap, granule, is_hole_addr, read_hole, write_hole, update, merge_next, merge_prev,
  overlaps_free, free_block,
}
use aion_so.Memory.FreeList.Holes.{
  Extent, Chain, Ordered, inside, is_free, total, IsRegion, Ordered-from, Chain-congr, read-some,
}
use aion_so.Memory.FreeList.Keeping.{write-some, update-ne, update-same, link-head}
use aion_so.Memory.FreeList.Merging.{Joined, joined_bytes}

pub free_block-overlap :
    (h : Heap) (b size prev current : ℕ)
    → overlaps_free h prev b (b + size) current ≡ some true
    → free_block h b size prev current ≡ none
unfolding free_block
free_block-overlap h b size prev current e = rw (e, overlaps_free) refl

pub free_block-apart :
    (h h' : Heap) (b size prev current : ℕ) (merged : Hole)
    → overlaps_free h prev b (b + size) current ≡ some false
    → merge_next h b size current ≡ some merged
    → merge_prev h prev b merged ≡ some h'
    → free_block h b size prev current ≡ some (record h' { free = add64 h'.free size })
unfolding free_block
free_block-apart h h' b size prev current merged e₁ e₂ e₃ =
    rw (e₁, overlaps_free) (rw (e₂, merge_next) (rw (e₃, merge_prev) refl))

pub merge_prev-null :
    (h : Heap) (b : ℕ) (merged : Hole)
    → is_hole_addr h b ≡ true
    → merge_prev h 0 b merged ≡ some (record h { head = b; memory = update h.memory b merged })
unfolding merge_prev
merge_prev-null h b merged ok =
    rw (write-some h b merged ok, write_hole)
      (link-head (record h { memory = update h.memory b merged }) b)

pub merge_prev-touching :
    (h : Heap) (prev b : ℕ) (merged : Hole)
    → prev ≢ 0
    → is_hole_addr h prev ≡ true
    → add64 prev (h.memory prev).size ≡ b
    → merge_prev h prev b merged
      ≡ some (record h {
        memory =
            update h.memory prev
              (record { size = add64 (h.memory prev).size merged.size; next = merged.next });
      })
unfolding merge_prev
merge_prev-touching h prev b merged ne ok touch =
    rw (==_of_ne prev 0 ne)
      (rw (read-some h prev ok, read_hole) (rw touch (rw (==_refl b) (write-some h prev _ ok))))

pub merge_prev-apart :
    (h : Heap) (prev b : ℕ) (merged : Hole)
    → prev ≢ 0
    → prev ≢ b
    → is_hole_addr h prev ≡ true
    → is_hole_addr h b ≡ true
    → (add64 prev (h.memory prev).size == b) ≡ false
    → merge_prev h prev b merged
      ≡ some (record h {
        memory =
            update
              (update h.memory b merged)
              prev
              (record { size = (update h.memory b merged prev).size; next = b });
      })
unfolding merge_prev is_hole_addr
merge_prev-apart h prev b merged ne other ok okb apart = rw (==_of_ne prev 0 ne) (
    rw (read-some h prev ok, read_hole)
      (rw apart (
        rw (write-some h b merged okb, write_hole)
          (rw (read-some (record h { memory = update h.memory b merged }) prev ok, read_hole)
            (write-some (record h { memory = update h.memory b merged }) prev _ ok)))))

-- The holes from `first` on are those of before and the block, and below it nothing has changed.
pub record Placed (h : Heap) (lo first b size : ℕ) (holes : List Extent) (m : ℕ → Hole)
    (holes' : List Extent) : Type 0 where
  pub chain : Chain m first holes'
  pub ordered : Ordered lo h.end' holes'
  pub free : (x : ℕ) → is_free holes' x ≡ (is_free holes x || inside b size x)
  pub count : total holes' ≡ total holes + size
  pub below : (x : ℕ) → x < first → m x ≡ h.memory x

swap_bytes : (p q r s t : Bool) → (s || t) ≡ (r || q) → (p || (s || t)) ≡ ((p || q) || r)
swap_bytes p q r s t e = ap (λ y. p || y) e ∙ ground arith

module _ (h : Heap) (b size : ℕ) (r : IsRegion h) (ab : b % granule ≡ 0)
    (whole : size % granule ≡ 0) (big : granule ≤ size) (from : h.start ≤ b)
    (inside_heap : b + size ≤ h.end') where
  -- Touching the hole `e` in front, the block makes it longer.
  pub place_touching :
      (lo : ℕ) (e : Extent) (es rest' : List Extent) (merged : Hole)
      → (h.memory e.addr).size ≡ e.size
      → Ordered lo h.end' (e ∷ es)
      → e.addr + e.size ≡ b
      → Joined h b size (h.memory e.addr).next es merged rest'
      → Placed h lo e.addr b size
          (e ∷ es)
          (update h.memory e.addr
            (record { size = add64 (h.memory e.addr).size merged.size; next = merged.next }))
          (record { addr = e.addr; size = e.size + merged.size } ∷ rest')
  place_touching lo e es rest' merged size_e (le, ae, se, big_e, hi, o) touch j =
      let hole : Hole = record {
        size = add64 (h.memory e.addr).size merged.size;
        next = merged.next;
      } in
      let m : ℕ → Hole = update h.memory e.addr hole in
      let sum : add64 (h.memory e.addr).size merged.size ≡ e.size + merged.size =
        omega (arith, size_e, j.within, r.fits) in
      record {
        chain = (
          refl,
          ap (λ (n : Hole). n.size) (update-same h.memory e.addr hole) ∙ sum,
          rw (update-same h.memory e.addr hole) (
              Chain-congr h.memory m (b + merged.size + 1) h.end' merged.next rest' j.ordered
                (λ x above. update-ne h.memory e.addr hole x (omega (arith, big_e))) j.chain),
        );
        ordered = (
          le,
          ae,
          omega (arith, j.whole),
          omega arith,
          omega (arith, j.within),
          Ordered-from (b + merged.size + 1) (e.addr + (e.size + merged.size) + 1) h.end' rest'
              (omega arith) j.ordered,
        );
        free = λ x.
            ap (λ y. y) (joined_bytes e.addr e.size merged.size x (is_free rest' x))
            ∙ (ap (λ a. inside e.addr e.size x || (inside a merged.size x || is_free rest' x)) touch
                ∙ swap_bytes (inside e.addr e.size x) (is_free es x) (inside b size x)
                    (inside b merged.size x) (is_free rest' x) (j.free x));
        count = omega (arith, j.count);
        below = λ x lt. update-ne h.memory e.addr hole x (omega arith);
      }

  -- Otherwise the block becomes the hole behind `e`.
  pub place_apart :
      (lo : ℕ) (e : Extent) (es rest' : List Extent) (merged : Hole)
      → (h.memory e.addr).size ≡ e.size
      → Ordered lo h.end' (e ∷ es)
      → e.addr + e.size < b
      → Joined h b size (h.memory e.addr).next es merged rest'
      → Placed h lo e.addr b size
          (e ∷ es)
          (update
            (update h.memory b merged)
            e.addr
            (record { size = (update h.memory b merged e.addr).size; next = b }))
          (e ∷ record { addr = b; size = merged.size } ∷ rest')
  place_apart lo e es rest' merged size_e (le, ae, se, big_e, hi, o) apart j =
      let w : ℕ → Hole = update h.memory b merged in
      let hole : Hole = record { size = (w e.addr).size; next = b } in
      let m : ℕ → Hole = update w e.addr hole in
      let at_b : m b ≡ merged =
        update-ne w e.addr hole b (omega arith) ∙ update-same h.memory b merged in
      let later : (x : ℕ) → b + merged.size + 1 ≤ x → m x ≡ h.memory x = λ x above.
        update-ne w e.addr hole x (omega arith) ∙ update-ne h.memory b merged x (omega arith) in
      record {
        chain = (
          refl,
          ap (λ (n : Hole). n.size) (update-same w e.addr hole)
              ∙ (ap (λ (n : Hole). n.size) (update-ne h.memory b merged e.addr (omega arith))
                  ∙ size_e),
          (
            ap (λ (n : Hole). n.next) (update-same w e.addr hole),
            rw (update-same w e.addr hole) (ap (λ (n : Hole). n.size) at_b),
            rw (update-same w e.addr hole) (
                rw at_b (
                  Chain-congr h.memory m (b + merged.size + 1) h.end' merged.next rest' j.ordered
                    later j.chain)),
          ),
        );
        ordered = (
          le,
          ae,
          se,
          big_e,
          hi,
          (omega arith, ab, j.whole, omega (arith, j.grown), j.within, j.ordered),
        );
        free = λ x.
            swap_bytes (inside e.addr e.size x) (is_free es x) (inside b size x)
              (inside b merged.size x) (is_free rest' x) (j.free x);
        count = omega (arith, j.count);
        below = λ x lt.
            update-ne w e.addr hole x (omega arith) ∙ update-ne h.memory b merged x (omega arith);
      }
