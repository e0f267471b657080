-- ===== src/Memory/FreeList/Deallocate.antt =====
-- The search for the place of a block, and the holes that it leaves in front.
use aion_so.Base.{
  ℕ, zero, suc, ◌+◌, ◌%◌, ◌≤◌, ◌<◌, ◌≡◌, inl, inr, refl, sym, ap, ◌∙◌, true, Option, List, [], ◌∷◌,
  ltb, arith, Bool-cases, length,
}
use aion_so.Memory.FreeList.{Hole, Heap, granule, is_hole_addr, seek}
use aion_so.Memory.FreeList.Holes.{Extent, Chain, Ordered, IsRegion, hole_addr}
use aion_so.Memory.FreeList.Placing.{Placed}
use aion_so.Memory.FreeList.Settling.{
  seek-end, seek-stop, seek-walk, settle, Unfree-cons, Settled, settle_behind,
}

-- A hole in front of where the block goes stays as it is.
Placed-cons :
    (h : Heap) (lo first b size : ℕ) (e : Extent) (es : List Extent) (m : ℕ → Hole)
    (holes' : List Extent)
    → (h.memory e.addr).size ≡ e.size
    → (h.memory e.addr).next ≡ first
    → e.addr < first
    → Ordered lo h.end' (e ∷ es)
    → Placed h (e.addr + e.size + 1) first b size es m holes'
    → Placed h lo e.addr b size (e ∷ es) m (e ∷ holes')
Placed-cons h lo first b size e es m holes' size_e next lt (le, ae, se, big_e, hi, o) p =
    let same : m e.addr ≡ h.memory e.addr = p.below e.addr lt in
    record {
      chain = (refl, ap (λ (n : Hole). n.size) same ∙ size_e, rw same (rw next p.chain));
      ordered = (le, ae, se, big_e, hi, p.ordered);
      free = λ x. ground (arith, p.free x);
      count = omega (arith, p.count);
      below = λ x under. p.below x (omega arith);
    }

Settled-cons :
    (h : Heap) (lo first b size : ℕ) (e : Extent) (es : List Extent) (answer : Option Heap)
    → (h.memory e.addr).size ≡ e.size
    → (h.memory e.addr).next ≡ first
    → e.addr < first
    → e.addr + e.size ≤ b
    → Ordered lo h.end' (e ∷ es)
    → Settled h (e.addr + e.size + 1) first b size es answer
    → Settled h lo e.addr b size (e ∷ es) answer
Settled-cons h lo first b size e es answer size_e next lt over o (inl (gone, (x, within, on))) =
    inl (gone, (x, within, ground (arith, on)))
Settled-cons h lo first b size e es answer size_e next lt over o (inr (m, holes', done, used, p)) =
    inr (
      m,
      e ∷ holes',
      done,
      Unfree-cons e.addr e.size b size es over used,
      Placed-cons h lo first b size e es m holes' size_e next lt o p,
    )

module _ (h : Heap) (b size : ℕ) (r : IsRegion h) (ab : b % granule ≡ 0)
    (whole : size % granule ≡ 0) (big : granule ≤ size) (from : h.start ≤ b)
    (inside_heap : b + size ≤ h.end') where
  pub settle_walk :
      (fuel lo current : ℕ) (e : Extent) (es : List Extent)
      → length es < fuel
      → h.start ≤ lo
      → (h.memory e.addr).size ≡ e.size
      → (h.memory e.addr).next ≡ current
      → Chain h.memory current es
      → Ordered lo h.end' (e ∷ es)
      → e.addr < b
      → Settled h lo e.addr b size (e ∷ es) (settle h b size (seek fuel h b e.addr current))
  settle_walk zero lo current e es few lo_h size_e next c o under = absurd (omega arith)
  settle_walk (suc fuel) lo current e [] few lo_h size_e next at o under = rw at (
      rw (seek-end fuel h b e.addr) (
        settle_behind h b size r ab whole big from inside_heap lo 0 e [] lo_h size_e (next ∙ at)
          refl o under tt))
  settle_walk (suc fuel) lo current e (f ∷ fs) few lo_h size_e next (at, size_f, c) o under =
      let (le, ae, se, big_e, hi, (le_f, af, sf, big_f, hi_f, o_f)) = o in
      elim (Bool-cases (ltb f.addr b)) [
        | inl before ↦
            let ok : is_hole_addr h f.addr ≡ true =
              hole_addr h f.addr r af (omega arith) (omega arith) in
            let size_f' : (h.memory f.addr).size ≡ f.size =
              ap (λ a. (h.memory a).size) (sym at) ∙ size_f in
            let c' : Chain h.memory (h.memory f.addr).next fs = rw (← at) c in
            rw at (
              rw
                (seek-walk fuel h b e.addr f.addr (omega (arith, r.not_null))
                  (ground (arith, before)) ok)
                (Settled-cons h lo f.addr b size e (f ∷ fs) _ size_e (next ∙ at) (omega arith)
                  (ground (arith, before)) o
                  (settle_walk fuel (e.addr + e.size + 1) (h.memory f.addr).next f fs (omega arith)
                    (omega arith) size_f' refl c' (le_f, af, sf, big_f, hi_f, o_f)
                    (ground (arith, before)))))
        | inr after ↦
            let far : b ≤ f.addr = ground (arith, after) in
            rw (seek-stop fuel h b e.addr current (omega (arith, at))) (
              settle_behind h b size r ab whole big from inside_heap lo current e (f ∷ fs) lo_h
                size_e next (at, size_f, c) o under (far, af, sf, big_f, hi_f, o_f))
      ]
