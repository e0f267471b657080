-- ===== src/Memory/FreeList/Allocate.antt =====
-- `allocate` hands out free memory, and only what it hands out stops being free.
use aion_so.Base.{
  ℕ, ◌+◌, ◌%◌, ◌≤◌, ◌≡◌, ◌⊎◌, inl, inr, refl, ◌∙◌, max, not, ◌&&◌, Option, none, some, List, arith,
  Option-cases, sub64,
}
use aion_so.Memory.FreeList.{
  Hole, Heap, Layout, granule, allocate_from, allocate, block_size, rounds,
}
use aion_so.Memory.FreeList.Holes.{Extent, inside, is_free, IsValid, length-rounds, free-small}
use aion_so.Memory.FreeList.Fitting.{IsLayout, block_size-some, align-granule, mod-align}
use aion_so.Memory.FreeList.Room.{AllFree, no_room}
use aion_so.Memory.FreeList.Carving.{Carved}
use aion_so.Memory.FreeList.Walk.{allocate_from-Found}

-- The two answers of `allocate` on a heap with the given holes.
abbrev pub Allocated : Heap → List Extent → Layout → Option (Option ℕ × Heap) → Type 0
Allocated h holes layout answer =
    ((answer ≡ some (none, h))
      × ((block_size layout ≡ none)
          ⊎ ((size : ℕ) × (block_size layout ≡ some size)
              × ((b : ℕ) → b % max layout.align granule ≡ 0 → AllFree holes b size → ⊥))))
    ⊎ ((size block : ℕ) × (h' : Heap) × (holes' : List Extent) × (block_size layout ≡ some size)
        × (layout.size ≤ size)
        × (answer ≡ some (some block, h'))
        × IsValid h' holes'
        × (h'.start ≡ h.start)
        × (h'.end' ≡ h.end')
        × (block % layout.align ≡ 0)
        × (block % granule ≡ 0)
        × AllFree holes block size
        × ((x : ℕ) → is_free holes' x ≡ (is_free holes x && not (inside block size x)))
        × (h'.free + size ≡ h.free))

allocate-none :
    (h : Heap) (layout : Layout) → block_size layout ≡ none → allocate h layout ≡ some (none, h)
unfolding allocate
allocate-none h layout e = rw (e, allocate) refl

allocate-some :
    (h : Heap) (layout : Layout) (size : ℕ)
    → block_size layout ≡ some size
    → allocate h layout ≡ allocate_from (rounds h) h size (max layout.align granule) 0 h.head
unfolding allocate
allocate-some h layout size e = rw (e, allocate) refl

-- The heap after is valid with the holes that are left.
Carved-IsValid :
    (h : Heap) (holes : List Extent) (size align block head' : ℕ) (m : ℕ → Hole)
    (holes' : List Extent)
    → IsValid h holes
    → Carved h 0 h.start size align holes block head' m holes'
    → IsValid (record h { head = head'; memory = m; free = sub64 h.free size }) holes'
      × (sub64 h.free size + size ≡ h.free)
Carved-IsValid h holes size align block head' m holes' v c = (
  record {
    region = record {
      start_aligned = v.region.start_aligned;
      end_aligned = v.region.end_aligned;
      not_null = v.region.not_null;
      ends = v.region.ends;
      fits = v.region.fits;
    };
    chain = rw c.linked.head c.chain;
    ordered = c.ordered;
    counted = omega (arith, c.count, v.counted, free-small h holes v);
  },
  omega (arith, c.count, v.counted, free-small h holes v),
)

-- On a valid heap `allocate` always answers. It answers `none`, changing nothing, only when the
-- size cannot be rounded or no block of free bytes of the rounded size lies at the alignment.
-- Otherwise every byte of the block that it hands out was free, the block is at least as long as
-- asked and at the alignment, its bytes and no others stop being free, the count goes down by its
-- size, and the heap is valid with the holes that are left.
pub heap_allocate_lem :
    (h : Heap) (holes : List Extent) (layout : Layout)
    → IsValid h holes
    → IsLayout layout
    → Allocated h holes layout (allocate h layout)
heap_allocate_lem h holes layout v l = elim (Option-cases (block_size layout)) [
  | inl e ↦ inl (allocate-none h layout e, inl e)
  | inr (size, e) ↦
      let (fits, big, whole) = block_size-some layout size e in
      let align : ℕ = max layout.align granule in
      elim (allocate_from-Found h size align v.region big whole (omega arith)
        (align-granule layout l) (rounds h) 0 h.head h.start holes
        (length-rounds h holes v.region v.ordered) (inl refl) refl (omega arith) v.chain
        v.ordered) [
          | inl (done, none') ↦ inl (
            allocate-some h layout size e ∙ done,
            inr (
              size,
              e,
              λ b multiple free.
                  no_room size align h.start h.end' b holes (omega arith) (omega arith)
                    v.region.fits v.ordered none' multiple free,
            ),
          )
          | inr (block, head', m, holes', done, c) ↦
              let (valid, count) = Carved-IsValid h holes size align block head' m holes' v c in
              inr (
                size,
                block,
                record h { head = head'; memory = m; free = sub64 h.free size },
                holes',
                e,
                fits,
                allocate-some h layout size e ∙ done,
                valid,
                refl,
                refl,
                mod-align layout block l c.aligned,
                c.on_granule,
                c.was_free,
                c.still_free,
                count,
              )
        ]
]
