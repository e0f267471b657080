-- ===== src/Memory/FreeList/RoundTrip.antt =====
-- A block that was handed out can be given back, and that undoes the allocation.
use aion_so.Base.{
  ℕ, ◌+◌, ◌-◌, ◌%◌, ◌≤◌, ◌<◌, ◌≡◌, inl, inr, refl, sym, ap, ◌∙◌, Bool, true, false, not, ◌&&◌, ◌||◌,
  Option, some, List, arith, some_inj,
}
use aion_so.Memory.FreeList.{Heap, Layout, granule, allocate, deallocate}
use aion_so.Memory.FreeList.Holes.{Extent, inside, is_free, IsValid, free-from, free-below}
use aion_so.Memory.FreeList.Fitting.{IsLayout, block_size-some}
use aion_so.Memory.FreeList.Room.{AllFree}
use aion_so.Memory.FreeList.Allocate.{heap_allocate_lem}
use aion_so.Memory.FreeList.Free.{InHeap, heap_deallocate_lem}

-- Free memory lies in the heap.
AllFree-InHeap :
    (h : Heap) (holes : List Extent) (b size : ℕ)
    → IsValid h holes
    → granule ≤ size
    → b % granule ≡ 0
    → AllFree holes b size
    → InHeap h b size
AllFree-InHeap h holes b size v big ab free =
    let last : b + size - 1 < h.end' =
      free-below h.start h.end' (b + size - 1) holes v.ordered
        (free (b + size - 1) (ground arith)) in
    (ab, free-from h.start h.end' b holes v.ordered (free b (ground arith)), omega arith)

-- The answers of `deallocate` after an `allocate` that handed out `b`.
abbrev pub Restored : Heap → List Extent → Option Heap → Type 0
Restored h holes answer =
    (h'' : Heap) × (holes'' : List Extent) × (answer ≡ some h'')
    × IsValid h'' holes''
    × ((x : ℕ) → is_free holes'' x ≡ is_free holes x)
    × (h''.free ≡ h.free)

given_back : (f g i : Bool) → (i ≡ true → f ≡ true) → g ≡ (f && not i) → (g || i) ≡ f
given_back f g true free e = ground (arith, e, free refl)
given_back f g false free e = ground (arith, e)

-- What `allocate` handed out on a valid heap, `deallocate` takes back under the same layout: it
-- does not panic, and afterwards the heap is valid and the free bytes and their count are as they
-- were before.
pub allocate-heap_deallocate :
    (h h' : Heap) (holes : List Extent) (layout : Layout) (b : ℕ)
    → IsValid h holes
    → IsLayout layout
    → allocate h layout ≡ some (some b, h')
    → Restored h holes (deallocate h' b layout)
allocate-heap_deallocate h h' holes layout b v l e = elim (heap_allocate_lem h holes layout v l) [
  | inl (refused, _) ↦ absurd (cc)
  | inr
        (
          size, block, after, left, known, fits, done, valid, start, end', _, on_granule, free,
          only, count,
        ) ↦
      let pair : (some block, after) ≡ (some b, h') = some_inj _ _ (sym done ∙ e) in
      let at : block ≡ b = some_inj _ _ (ap (λ (p : Option ℕ × Heap). p.0) pair) in
      let same : after ≡ h' = ap (λ (p : Option ℕ × Heap). p.1) pair in
      let (_, big, whole) = block_size-some layout size known in
      let (ab, from, hi) = AllFree-InHeap h holes block size v big on_granule free in
      rw (← at, ← same)
        (elim (heap_deallocate_lem after left block layout valid) [
          | inl (_, unknown) ↦ absurd (cc)
          | inr (size', known', inl (_, outside)) ↦
              let n : size' ≡ size = some_inj _ _ (sym known' ∙ known) in
              absurd (outside (on_granule, omega (arith, start), omega (arith, n, end')))
          | inr (size', known', inr (_, inl (_, (x, within, on)))) ↦
              let n : size' ≡ size = some_inj _ _ (sym known' ∙ known) in
              let within' : inside block size x ≡ true =
                ap (λ s. inside block s x) (sym n) ∙ within in
              absurd (ground (arith, only x, on, within'))
          | inr (size', known', inr (_, inr (h'', holes'', freed, used, valid', bytes, count'))) ↦
              let n : size' ≡ size = some_inj _ _ (sym known' ∙ known) in
              (
                h'',
                holes'',
                freed,
                valid',
                (λ x.
                    bytes x
                    ∙ (ap (λ s. is_free left x || inside block s x) n
                        ∙ given_back (is_free holes x) (is_free left x) (inside block size x)
                            (free x) (only x))),
                omega (arith, count, count', n),
              )
        ])
]
