-- ===== src/Memory/FreeList/Free.antt =====
-- `deallocate` on a valid heap, on every branch.
use aion_so.Base.{
  ℕ, ◌+◌, ◌%◌, ◌≤◌, ◌<◌, ◌≡◌, ◌⊎◌, inl, inr, refl, true, false, none, some, List, arith, word_size,
  Bool-cases, Option-cases,
}
use aion_so.Memory.FreeList.{Heap, Layout, granule, seek, is_block, block_size, deallocate, rounds}
use aion_so.Memory.FreeList.Holes.{Extent, IsValid, length-rounds}
use aion_so.Memory.FreeList.Fitting.{block_size-some}
use aion_so.Memory.FreeList.Settling.{settle}
use aion_so.Memory.FreeList.Releasing.{Released, release}

-- A block of the heap: whole, aligned and inside.
abbrev pub InHeap : Heap → ℕ → ℕ → Type 0
InHeap h b size = (b % granule ≡ 0) × (h.start ≤ b) × (b + size ≤ h.end')

is_block-cases :
    (h : Heap) (b size : ℕ)
    → h.end' < word_size
    → ((is_block h b size ≡ true) × InHeap h b size)
      ⊎ ((is_block h b size ≡ false) × (InHeap h b size → ⊥))
unfolding is_block
is_block-cases h b size fits = elim (Bool-cases (is_block h b size)) [
  | inl good ↦ inl (good, ground arith)
  | inr bad ↦ inr (bad, λ (ab, from, hi). ground arith)
]

deallocate-unknown :
    (h : Heap) (b : ℕ) (layout : Layout) → block_size layout ≡ none → deallocate h b layout ≡ none
unfolding deallocate
deallocate-unknown h b layout e = rw (e, deallocate) refl

deallocate-foreign :
    (h : Heap) (b size : ℕ) (layout : Layout)
    → block_size layout ≡ some size
    → is_block h b size ≡ false
    → deallocate h b layout ≡ none
unfolding deallocate
deallocate-foreign h b size layout e bad = rw (e, deallocate) (rw bad refl)

deallocate-block :
    (h : Heap) (b size : ℕ) (layout : Layout)
    → block_size layout ≡ some size
    → is_block h b size ≡ true
    → deallocate h b layout ≡ settle h b size (seek (rounds h) h b 0 h.head)
unfolding deallocate
deallocate-block h b size layout e good = rw (e, deallocate) (rw good refl)

-- On a valid heap `deallocate` panics when the layout is one that was never allocated, when the
-- block is not whole, aligned and inside the heap, and when a byte of it is free already. In every
-- other case it gives the block back: its bytes and no others become free, the count goes up by
-- its size, and the heap is valid.
pub heap_deallocate_lem :
    (h : Heap) (holes : List Extent) (b : ℕ) (layout : Layout)
    → IsValid h holes
    → ((deallocate h b layout ≡ none) × (block_size layout ≡ none))
      ⊎ ((size : ℕ) × (block_size layout ≡ some size)
          × (((deallocate h b layout ≡ none) × (InHeap h b size → ⊥))
              ⊎ InHeap h b size × Released h holes b size (deallocate h b layout)))
heap_deallocate_lem h holes b layout v = elim (Option-cases (block_size layout)) [
  | inl e ↦ inl (deallocate-unknown h b layout e, e)
  | inr (size, e) ↦
      let (_, big, whole) = block_size-some layout size e in
      inr (
        size,
        e,
        elim (is_block-cases h b size v.region.fits) [
          | inr (bad, outside) ↦ inl (deallocate-foreign h b size layout e bad, outside)
          | inl (good, (ab, from, hi)) ↦ inr (
            (ab, from, hi),
            rw (deallocate-block h b size layout e good) (
                release h b size ab whole big from hi (rounds h) holes
                  (length-rounds h holes v.region v.ordered) v),
          )
        ],
      )
]
