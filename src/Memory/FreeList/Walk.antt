-- ===== src/Memory/FreeList/Walk.antt =====
-- The walk of `allocate` along the holes.
use aion_so.Base.{
  ℕ, zero, suc, ◌+◌, ◌%◌, ◌≤◌, ◌<◌, ◌≡◌, ◌≢◌, ◌⊎◌, inl, inr, refl, sym, ap, ◌∙◌, Bool, true, not,
  ◌&&◌, ◌||◌, Option, none, some, List, [], ◌∷◌, if◌then◌else◌, ◌==◌, ==_of_ne, arith, Bool-cases,
  Option-cases, length, add64, sub64, ◌>>=◌,
}
use aion_so.Memory.FreeList.{
  Hole, Heap, granule, is_hole_addr, read_hole, fit, carve, allocate_from,
}
use aion_so.Memory.FreeList.Holes.{
  Extent, Chain, Ordered, inside, is_free, IsRegion, free-from, hole_addr, read-some,
}
use aion_so.Memory.FreeList.Keeping.{pointer, Before}
use aion_so.Memory.FreeList.Carving.{Carved, NoneFits, carve-Carved, Before-lt}

-- What the walk answers from the holes `rest` on.
abbrev Found : Heap → ℕ → ℕ → ℕ → ℕ → List Extent → Option (Option ℕ × Heap) → Type 0
Found h prev lo size align rest answer =
    ((answer ≡ some (none, h)) × NoneFits size align rest)
    ⊎ ((block head' : ℕ) × (m : ℕ → Hole) × (rest' : List Extent) × (answer
          ≡ some (some block, record h { head = head'; memory = m; free = sub64 h.free size }))
        × Carved h prev lo size align rest block head' m rest')

allocate_from-end :
    (fuel : ℕ) (h : Heap) (size align prev : ℕ)
    → allocate_from (suc fuel) h size align prev 0 ≡ some (none, h)
unfolding allocate_from
allocate_from-end fuel h size align prev = refl

allocate_from-skip :
    (fuel : ℕ) (h : Heap) (size align prev current : ℕ)
    → current ≢ 0
    → is_hole_addr h current ≡ true
    → fit current (add64 current (h.memory current).size) size align ≡ none
    → allocate_from (suc fuel) h size align prev current
      ≡ allocate_from fuel h size align current (h.memory current).next
unfolding allocate_from
allocate_from-skip fuel h size align prev current ne ok e =
    rw (==_of_ne current 0 ne) (rw (read-some h current ok, read_hole) (rw (e, fit, ◌>>=◌) refl))

allocate_from-carve :
    (fuel : ℕ) (h : Heap) (size align prev current block : ℕ)
    → current ≢ 0
    → is_hole_addr h current ≡ true
    → fit current (add64 current (h.memory current).size) size align ≡ some block
    → allocate_from (suc fuel) h size align prev current
      ≡ carve h prev current (h.memory current) block size
unfolding allocate_from
allocate_from-carve fuel h size align prev current block ne ok e =
    rw (==_of_ne current 0 ne) (rw (read-some h current ok, read_hole) (rw (e, fit, ◌>>=◌) refl))

-- A byte of the hole in front is not one of a block that lies behind.
keeps_byte :
    (a s b n x : ℕ) (before after : Bool)
    → after ≡ (before && not (inside b n x))
    → (inside b n x ≡ true → a + s + 1 ≤ x)
    → (inside a s x || after) ≡ ((inside a s x || before) && not (inside b n x))
keeps_byte a s b n x before after e far = elim (Bool-cases (inside b n x)) [
  | inl within ↦ let above : a + s + 1 ≤ x = far within in ground (arith, e)
  | inr outside ↦ ground (arith, e, outside)
]

pointer-head :
    (h : Heap) (prev first : ℕ)
    → pointer h prev ≡ first
    → (if prev == 0 then first else h.head) ≡ h.head
pointer-head h prev first e = elim (Bool-cases (prev == 0)) [
  | inl null ↦ ground (arith, null, e)
  | inr some' ↦ rw some' refl
]

pointer-next :
    (h : Heap) (prev first : ℕ) → pointer h prev ≡ first → prev ≢ 0 → (h.memory prev).next ≡ first
pointer-next h prev first e ne = ground (arith, e, ==_of_ne prev 0 ne)

pointer-at : (h : Heap) (prev : ℕ) → prev ≢ 0 → pointer h prev ≡ (h.memory prev).next
pointer-at h prev ne = rw (==_of_ne prev 0 ne) refl

-- A block cut out behind a hole leaves that hole as it was.
Carved-behind :
    (h : Heap) (prev lo size align block head' : ℕ) (m : ℕ → Hole) (e : Extent)
    (es es' : List Extent)
    → Before h prev lo
    → pointer h prev ≡ e.addr
    → 0 < e.addr
    → (h.memory e.addr).size ≡ e.size
    → Ordered lo h.end' (e ∷ es)
    → Carved h e.addr (e.addr + e.size + 1) size align es block head' m es'
    → Carved h prev lo size align (e ∷ es) block head' m (e ∷ es')
Carved-behind h prev lo size align block head' m e es es' b p pos at_size (le, ae, se, big, hi, o)
      c =
    let there : m e.addr ≡ record { size = (h.memory e.addr).size; next = c.first } =
      c.linked.pointed (omega (arith, pos)) in
    record {
      first = e.addr;
      linked = record {
        head = c.linked.head ∙ (ground (arith, pos) ∙ sym (pointer-head h prev e.addr p));
        pointed = λ ne.
            c.linked.below prev (omega (arith, Before-lt h prev lo b ne))
              (omega (arith, Before-lt h prev lo b ne))
            ∙ ap (λ n. record { size = (h.memory prev).size; next = n })
                (pointer-next h prev e.addr p ne);
        below = λ x lt ne. c.linked.below x (omega arith) (omega arith);
      };
      chain = (refl, ap (λ (n : Hole). n.size) there ∙ at_size, rw there c.chain);
      ordered = (le, ae, se, big, hi, c.ordered);
      aligned = c.aligned;
      on_granule = c.on_granule;
      was_free = λ x within. ground (arith, c.was_free x within);
      still_free = λ x.
          keeps_byte e.addr e.size block size x (is_free es x) (is_free es' x) (c.still_free x)
            (λ within. free-from (e.addr + e.size + 1) h.end' x es o (c.was_free x within));
      count = omega (arith, c.count);
    }

module _ (h : Heap) (size align : ℕ) (r : IsRegion h) (big : granule ≤ size)
    (whole : size % granule ≡ 0) (pos : 0 < align) (multiple : align % granule ≡ 0) where
  pub allocate_from-Found :
      (fuel prev current lo : ℕ) (rest : List Extent)
      → length rest < fuel
      → Before h prev lo
      → pointer h prev ≡ current
      → h.start ≤ lo
      → Chain h.memory current rest
      → Ordered lo h.end' rest
      → Found h prev lo size align rest (allocate_from fuel h size align prev current)
  allocate_from-Found zero prev current lo rest few b p from c o = absurd (omega arith)
  allocate_from-Found (suc fuel) prev current lo [] few b p from at o =
      rw at (inl (allocate_from-end fuel h size align prev, tt))
  allocate_from-Found (suc fuel) prev current lo (e ∷ es) few b p from (at, at_size, c)
        (le, ae, se, big_e, hi, o) =
      let size_e : (h.memory e.addr).size ≡ e.size =
        ap (λ a. (h.memory a).size) (sym at) ∙ at_size in
      let chain_e : Chain h.memory (h.memory e.addr).next es = rw (← at) c in
      let ok : is_hole_addr h e.addr ≡ true = hole_addr h e.addr r ae (omega arith) (omega arith) in
      let stop : add64 e.addr (h.memory e.addr).size ≡ e.addr + e.size =
        omega (arith, size_e, r.fits) in
      rw at (elim (Option-cases (fit e.addr (e.addr + e.size) size align)) [
        | inr (block, room) ↦
            let (head', m, rest', done, carved) =
              carve-Carved h size align r big whole pos multiple prev lo block e es b from size_e
                chain_e (le, ae, se, big_e, hi, o) room in
            inr (
              block,
              head',
              m,
              rest',
              allocate_from-carve fuel h size align prev e.addr block (omega (arith, r.not_null)) ok
                    (ap (λ n. fit e.addr n size align) stop ∙ room)
                  ∙ done,
              carved,
            )
        | inl full ↦
            let skip : allocate_from (suc fuel) h size align prev e.addr
                ≡ allocate_from fuel h size align e.addr (h.memory e.addr).next =
              allocate_from-skip fuel h size align prev e.addr (omega (arith, r.not_null)) ok
                (ap (λ n. fit e.addr n size align) stop ∙ full) in
            elim (allocate_from-Found fuel e.addr (h.memory e.addr).next (e.addr + e.size + 1) es
              (omega arith) (inr (ok, omega arith))
              (pointer-at h e.addr (omega (arith, r.not_null))) (omega arith) chain_e o) [
                | inl (done, none') ↦ inl (skip ∙ done, (full, none'))
                | inr (block, head', m, es', done, carved) ↦ inr (
                  block,
                  head',
                  m,
                  e ∷ es',
                  skip ∙ done,
                  Carved-behind h prev lo size align block head' m e es es' b (p ∙ at)
                      (omega (arith, r.not_null)) size_e (le, ae, se, big_e, hi, o) carved,
                )
              ]
      ])
