-- ===== src/Memory/FreeList/Holes.antt =====
-- The free list seen from outside: the holes in address order, and the bytes that they make free.
use aion_so.Base.{
  ℕ, ◌+◌, ◌*◌, ◌%◌, ◌≤◌, ◌<◌, ◌≡◌, refl, Bool, true, false, ◌&&◌, ◌||◌, some, List, [], ◌∷◌, ltb,
  leb, length, arith, word_size,
}
use aion_so.Memory.FreeList.{Hole, Heap, granule, is_hole_addr, read_hole, rounds}

pub record Extent : Type 0 where
  pub addr : ℕ
  pub size : ℕ

-- The list in memory from an address on.
abbrev pub Chain : (ℕ → Hole) → ℕ → List Extent → Type 0
Chain memory a [] = a ≡ 0
Chain memory a (e ∷ es) =
    (a ≡ e.addr) × ((memory a).size ≡ e.size) × Chain memory (memory a).next es

-- Whole granules between two addresses, in order; a byte at least lies between two of them.
abbrev pub Ordered : ℕ → ℕ → List Extent → Type 0
Ordered lo hi [] = Unit {0}
Ordered lo hi (e ∷ es) =
    (lo ≤ e.addr)
    × (e.addr % granule ≡ 0)
    × (e.size % granule ≡ 0)
    × (granule ≤ e.size)
    × (e.addr + e.size ≤ hi)
    × Ordered (e.addr + e.size + 1) hi es

abbrev pub inside : ℕ → ℕ → ℕ → Bool
inside addr size x = leb addr x && ltb x (addr + size)

abbrev pub is_free : List Extent → ℕ → Bool
is_free [] x = false
is_free (e ∷ es) x = inside e.addr e.size x || is_free es x

abbrev pub total : List Extent → ℕ
total [] = 0
total (e ∷ es) = e.size + total es

-- The region that a heap was given.
pub record IsRegion (h : Heap) : Type 0 where
  pub start_aligned : h.start % granule ≡ 0
  pub end_aligned : h.end' % granule ≡ 0
  pub not_null : 0 < h.start
  pub ends : h.start ≤ h.end'
  pub fits : h.end' < word_size

pub record IsValid (h : Heap) (holes : List Extent) : Type 0 where
  pub region : IsRegion h
  pub chain : Chain h.memory h.head holes
  pub ordered : Ordered h.start h.end' holes
  pub counted : h.free ≡ total holes

pub Ordered-from :
    (lo lo' hi : ℕ) (es : List Extent) → lo' ≤ lo → Ordered lo hi es → Ordered lo' hi es
Ordered-from lo lo' hi [] le o = tt
Ordered-from lo lo' hi (e ∷ es) le (a, p, q, r, s, rest) = (omega arith, p, q, r, s, rest)

pub Chain-congr :
    (m m' : ℕ → Hole) (lo hi a : ℕ) (es : List Extent)
    → Ordered lo hi es
    → ((x : ℕ) → lo ≤ x → m' x ≡ m x)
    → Chain m a es
    → Chain m' a es
Chain-congr m m' lo hi a [] o same c = c
Chain-congr m m' lo hi a (e ∷ es) (le, _, _, _, _, o) same (at, size, c) =
    let e' : m' a ≡ m a = same a (omega (arith, at)) in
    (
      at,
      rw e' size,
      rw e' (
          Chain-congr m m' (e.addr + e.size + 1) hi (m a).next es o (λ x h. same x (omega arith))
            c),
    )

pub free-from : (lo hi x : ℕ) (es : List Extent) → Ordered lo hi es → is_free es x ≡ true → lo ≤ x
free-from lo hi x [] o h = absurd (ground arith)
free-from lo hi x (e ∷ es) (le, _, _, _, _, o) h =
    ground (arith, free-from (e.addr + e.size + 1) hi x es o)

pub free-below : (lo hi x : ℕ) (es : List Extent) → Ordered lo hi es → is_free es x ≡ true → x < hi
free-below lo hi x [] o h = absurd (ground arith)
free-below lo hi x (e ∷ es) (le, _, _, _, end', o) h =
    ground (arith, free-below (e.addr + e.size + 1) hi x es o)

pub total-le :
    (lo hi : ℕ) (es : List Extent) → Ordered lo hi es → lo ≤ hi + 1 → lo + total es ≤ hi + 1
total-le lo hi [] o h = omega arith
total-le lo hi (e ∷ es) (le, _, _, _, end', o) h =
    omega (arith, total-le (e.addr + e.size + 1) hi es o (omega arith))

length-le :
    (lo hi : ℕ) (es : List Extent) → Ordered lo hi es → lo ≤ hi + 1 → lo + 16 * length es ≤ hi + 1
length-le lo hi [] o h = omega arith
length-le lo hi (e ∷ es) (le, _, _, big, end', o) h =
    omega (arith, length-le (e.addr + e.size + 1) hi es o (omega arith))

-- There are fewer holes than rounds of the walks.
pub length-rounds :
    (h : Heap) (es : List Extent) → IsRegion h → Ordered h.start h.end' es → length es < rounds h
length-rounds h es r o = omega (
  arith,
  length-le h.start h.end' es o (omega (arith, r.ends)),
  r.ends,
  r.start_aligned,
  r.end_aligned,
)

pub free-small : (h : Heap) (es : List Extent) → IsValid h es → h.free < word_size
free-small h es v = omega (
  arith,
  v.counted,
  total-le h.start h.end' es v.ordered (omega (arith, v.region.ends)),
  v.region.not_null,
  v.region.fits,
)

-- A place for a header: aligned, and a granule of the heap.
pub hole_addr :
    (h : Heap) (a : ℕ)
    → IsRegion h
    → a % granule ≡ 0
    → h.start ≤ a
    → a + granule ≤ h.end'
    → is_hole_addr h a ≡ true
unfolding is_hole_addr
hole_addr h a r aligned lo hi = ground (arith, r.fits)

pub read-some : (h : Heap) (a : ℕ) → is_hole_addr h a ≡ true → read_hole h a ≡ some (h.memory a)
unfolding read_hole
read-some h a ok = rw ok refl
