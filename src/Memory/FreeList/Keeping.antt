-- ===== src/Memory/FreeList/Keeping.antt =====
-- Keeping free what lies on one side of a block, and linking it into the list.
use aion_so.Base.{
  ℕ, ◌+◌, ◌-◌, ◌%◌, ◌≤◌, ◌<◌, ◌≡◌, ◌≢◌, ◌⊎◌, inl, inr, refl, sym, ap, true, ◌||◌, some, List, ◌∷◌,
  if◌then◌else◌, ◌==◌, ==→eq, ==→ne, ==_of_ne, arith, Bool-cases,
}
use aion_so.Memory.FreeList.{Hole, Heap, granule, is_hole_addr, write_hole, update, keep_free, link}
use aion_so.Memory.FreeList.Holes.{
  Extent, Chain, Ordered, inside, is_free, total, IsRegion, Ordered-from, Chain-congr, hole_addr,
  read-some,
}

pub write-some :
    (h : Heap) (a : ℕ) (hole : Hole)
    → is_hole_addr h a ≡ true
    → write_hole h a hole ≡ some (record h { memory = update h.memory a hole })
unfolding write_hole
write-some h a hole ok = rw ok refl

pub update-ne : (m : ℕ → Hole) (a : ℕ) (hole : Hole) (x : ℕ) → x ≢ a → update m a hole x ≡ m x
update-ne m a hole x ne = rw (==_of_ne x a ne) refl

pub update-same : (m : ℕ → Hole) (a : ℕ) (hole : Hole) → update m a hole a ≡ hole
update-same m a hole = ground arith

-- The part from `from` to `to`, in front of the holes `es`, is a hole of its own or nothing.
pub record Kept (h : Heap) (from to next : ℕ) (es : List Extent) (m : ℕ → Hole) (first : ℕ)
    (es' : List Extent) : Type 0 where
  pub done : keep_free h from to next ≡ some (record h { memory = m }, first)
  pub below : (x : ℕ) → x < from → m x ≡ h.memory x
  pub chain : Chain m first es'
  pub ordered : Ordered from h.end' es'
  pub free : (x : ℕ) → is_free es' x ≡ (inside from (to - from) x || is_free es x)
  pub count : total es' ≡ to - from + total es

keep-some :
    (h : Heap) (from to next : ℕ)
    → from < to
    → is_hole_addr h from ≡ true
    → keep_free h from to next
      ≡ some (
        record h { memory = update h.memory from (record { size = to - from; next = next }) },
        from,
      )
unfolding keep_free
keep-some h from to next lt ok =
    ground (arith, write-some h from (record { size = to - from; next = next }) ok)

keep-none : (h : Heap) (from next : ℕ) → keep_free h from from next ≡ some (h, next)
unfolding keep_free
keep-none h from next = ground arith

pub keep_free-Kept :
    (h : Heap) (from to next : ℕ) (es : List Extent)
    → IsRegion h
    → from % granule ≡ 0
    → to % granule ≡ 0
    → h.start ≤ from
    → from ≤ to
    → to ≤ h.end'
    → Chain h.memory next es
    → Ordered (to + 1) h.end' es
    → (m : ℕ → Hole) × (first : ℕ) × (es' : List Extent) × Kept h from to next es m first es'
keep_free-Kept h from to next es r af at lo le hi c o = elim (Bool-cases (from == to)) [
  | inl same ↦
      let e : to ≡ from = sym (==→eq from to same) in
      (
        h.memory,
        next,
        es,
        record {
          done = rw e (keep-none h from next);
          below = λ x lt. refl;
          chain = c;
          ordered = Ordered-from (to + 1) from h.end' es (omega arith) o;
          free = λ x. ground (arith, e);
          count = omega arith;
        },
      )
  | inr other ↦
      let lt : from < to = omega (arith, ==→ne from to other) in
      let hole : Hole = record { size = to - from; next = next } in
      let m : ℕ → Hole = update h.memory from hole in
      (
        m,
        from,
        record { addr = from; size = to - from } ∷ es,
        record {
          done = keep-some h from to next lt (hole_addr h from r af lo (omega arith));
          below = λ x under. update-ne h.memory from hole x (omega arith);
          chain = (
            refl,
            ap (λ (n : Hole). n.size) (update-same h.memory from hole),
            rw (update-same h.memory from hole) (
                Chain-congr h.memory m (to + 1) h.end' next es o
                  (λ x above. update-ne h.memory from hole x (omega arith)) c),
          );
          ordered = (
            omega arith,
            af,
            omega arith,
            omega arith,
            omega arith,
            Ordered-from (to + 1) (from + (to - from) + 1) h.end' es (omega arith) o,
          );
          free = λ x. refl;
          count = refl;
        },
      )
]

-- Where the list is entered from `prev`: the head, or the hole there.
abbrev pub pointer : Heap → ℕ → ℕ
pointer h prev = if prev == 0 then h.head else (h.memory prev).next

-- `prev` is no hole, or one that lies below.
abbrev pub Before : Heap → ℕ → ℕ → Type 0
Before h prev lo = (prev ≡ 0) ⊎ ((is_hole_addr h prev ≡ true) × (prev < lo))

-- The list entered from `prev` is now what starts at `first`; below `lo` nothing else has changed.
pub record Linked (h : Heap) (prev first lo head' : ℕ) (m : ℕ → Hole) : Type 0 where
  pub head : head' ≡ (if prev == 0 then first else h.head)
  pub pointed : prev ≢ 0 → m prev ≡ record { size = (h.memory prev).size; next = first }
  pub below : (x : ℕ) → x < lo → x ≢ prev → m x ≡ h.memory x

pub link-head : (h : Heap) (first : ℕ) → link h 0 first ≡ some (record h { head = first })
unfolding link
link-head h first = ground arith

link-hole :
    (h : Heap) (prev first : ℕ)
    → prev ≢ 0
    → is_hole_addr h prev ≡ true
    → link h prev first
      ≡ some (record h {
        memory = update h.memory prev (record { size = (h.memory prev).size; next = first });
      })
unfolding link
link-hole h prev first ne ok = rw (==_of_ne prev 0 ne) (
    rw (read-some h prev ok)
      (write-some h prev (record { size = (h.memory prev).size; next = first }) ok))

pub link-Linked :
    (h : Heap) (prev first lo : ℕ) (es : List Extent)
    → Before h prev lo
    → Chain h.memory first es
    → Ordered lo h.end' es
    → (head' : ℕ) × (m : ℕ → Hole) × (link h prev first
        ≡ some (record h { head = head'; memory = m }))
      × Linked h prev first lo head' m
      × Chain m first es
link-Linked h prev first lo es b c o = elim (Bool-cases (prev == 0)) [
  | inl null ↦
      let e : prev ≡ 0 = ==→eq prev 0 null in
      (
        first,
        h.memory,
        rw e (link-head h first),
        record {
          head = ground (arith, null);
          pointed = λ ne. absurd (ne e);
          below = λ x lt ne. refl;
        },
        c,
      )
  | inr some' ↦ elim b [
    | inl e ↦ absurd (ground arith)
    | inr (ok, under) ↦
        let hole : Hole = record { size = (h.memory prev).size; next = first } in
        (
          h.head,
          update h.memory prev hole,
          link-hole h prev first (==→ne prev 0 some') ok,
          record {
            head = ground (arith, some');
            pointed = λ ne. update-same h.memory prev hole;
            below = λ x lt ne. update-ne h.memory prev hole x ne;
          },
          Chain-congr h.memory (update h.memory prev hole) lo h.end' first es o
              (λ x above. update-ne h.memory prev hole x (omega arith)) c,
        )
  ]
]
