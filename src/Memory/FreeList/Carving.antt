-- ===== src/Memory/FreeList/Carving.antt =====
-- Cutting a block out of a hole: what is left of the hole, and the list linked up again.
use aion_so.Base.{
  ℕ, ◌+◌, ◌-◌, ◌%◌, ◌≤◌, ◌<◌, ◌≡◌, ◌≢◌, inl, inr, refl, ap, ◌∙◌, Bool, true, false, not, ◌&&◌, ◌||◌,
  none, some, List, ◌∷◌, ==_of_ne, arith, All, add64, sub64,
}
use aion_so.Memory.FreeList.{Hole, Heap, granule, is_hole_addr, keep_free, link, fit, carve}
use aion_so.Memory.FreeList.Holes.{
  Extent, Chain, Ordered, inside, is_free, total, IsRegion, Ordered-from, free-from,
}
use aion_so.Memory.FreeList.Keeping.{keep_free-Kept, Before, Linked, link-Linked}
use aion_so.Memory.FreeList.Fitting.{fit-some}

-- `block` was cut out of the holes `rest` that start at `lo`, entered from `prev`.
pub record Carved (h : Heap) (prev lo size align : ℕ) (rest : List Extent) (block head' : ℕ)
    (m : ℕ → Hole) (rest' : List Extent) : Type 0 where
  pub first : ℕ
  pub linked : Linked h prev first lo head' m
  pub chain : Chain m first rest'
  pub ordered : Ordered lo h.end' rest'
  pub aligned : block % align ≡ 0
  pub on_granule : block % granule ≡ 0
  pub was_free : (x : ℕ) → inside block size x ≡ true → is_free rest x ≡ true
  pub still_free : (x : ℕ) → is_free rest' x ≡ (is_free rest x && not (inside block size x))
  pub count : total rest' + size ≡ total rest

-- No hole of the list has room for the request.
abbrev pub NoneFits : ℕ → ℕ → List Extent → Type 0
NoneFits size align holes = All (λ e. fit e.addr (e.addr + e.size) size align ≡ none) holes

carve-steps :
    (h h₁ h₂ h₃ : Heap) (prev current block size f₁ f₂ : ℕ) (hole : Hole)
    → keep_free h (block + size) (add64 current hole.size) hole.next ≡ some (h₁, f₁)
    → keep_free h₁ current block f₁ ≡ some (h₂, f₂)
    → link h₂ prev f₂ ≡ some h₃
    → block ≢ 0
    → carve h prev current hole block size
      ≡ some (some block, record h₃ { free = sub64 h₃.free size })
unfolding carve
carve-steps h h₁ h₂ h₃ prev current block size f₁ f₂ hole e₁ e₂ e₃ ne =
    rw (e₁, keep_free) (rw (e₂, keep_free) (rw (e₃, link) (rw (==_of_ne block 0 ne) refl)))

inside_hole :
    (a s b n x : ℕ) (others : Bool)
    → a ≤ b
    → b + n ≤ a + s
    → inside b n x ≡ true
    → (inside a s x || others) ≡ true
inside_hole a s b n x others lo hi within = ground arith

-- The bytes of a hole less those of the block are the bytes in front and the bytes behind.
cut_bytes :
    (a s b n x : ℕ) (others behind all : Bool)
    → behind ≡ (inside (b + n) (a + s - (b + n)) x || others)
    → all ≡ (inside a (b - a) x || behind)
    → a ≤ b
    → b + n ≤ a + s
    → (others ≡ true → a + s + 1 ≤ x)
    → all ≡ ((inside a s x || others) && not (inside b n x))
cut_bytes a s b n x true behind all e₁ e₂ lo hi above =
    let far : a + s + 1 ≤ x = above refl in ground (arith, e₁, e₂)
cut_bytes a s b n x false behind all e₁ e₂ lo hi above = ground (arith, e₁, e₂)

region_with : (h : Heap) (m : ℕ → Hole) → IsRegion h → IsRegion (record h { memory = m })
region_with h m r = record {
  start_aligned = r.start_aligned;
  end_aligned = r.end_aligned;
  not_null = r.not_null;
  ends = r.ends;
  fits = r.fits;
}

Before-with :
    (h : Heap) (m : ℕ → Hole) (prev lo : ℕ)
    → Before h prev lo
    → Before (record h { memory = m }) prev lo
unfolding is_hole_addr
Before-with h m prev lo b = b

pub Before-lt : (h : Heap) (prev lo : ℕ) → Before h prev lo → prev ≢ 0 → prev < lo
Before-lt h prev lo (inl e) ne = absurd (ne e)
Before-lt h prev lo (inr (_, lt)) ne = lt

module _ (h : Heap) (size align : ℕ) (r : IsRegion h) (big : granule ≤ size)
    (whole : size % granule ≡ 0) (pos : 0 < align) (multiple : align % granule ≡ 0) where
  pub carve-Carved :
      (prev lo block : ℕ) (e : Extent) (es : List Extent)
      → Before h prev lo
      → h.start ≤ lo
      → (h.memory e.addr).size ≡ e.size
      → Chain h.memory (h.memory e.addr).next es
      → Ordered lo h.end' (e ∷ es)
      → fit e.addr (e.addr + e.size) size align ≡ some block
      → (head' : ℕ) × (m : ℕ → Hole) × (rest' : List Extent) × (carve h prev e.addr
            (h.memory e.addr)
            block
            size
          ≡ some (some block, record h { head = head'; memory = m; free = sub64 h.free size }))
        × Carved h prev lo size align (e ∷ es) block head' m rest'
  carve-Carved prev lo block e es b from at_size c (le, ae, se, big_e, hi, o) room =
      let (lo_b, hi_b, aligned, granules) =
        fit-some e.addr (e.addr + e.size) size align block pos multiple room in
      let stop : add64 e.addr (h.memory e.addr).size ≡ e.addr + e.size =
        omega (arith, at_size, r.fits) in
      let (m₁, f₁, es₁, k₁) =
        keep_free-Kept h (block + size) (e.addr + e.size) (h.memory e.addr).next es r (omega arith)
          (omega arith) (omega (arith, lo_b)) hi_b hi c o in
      let (m₂, f₂, es₂, k₂) =
        keep_free-Kept (record h { memory = m₁ }) e.addr block f₁ es₁ (region_with h m₁ r) ae
          granules (omega arith) lo_b (omega (arith, hi_b)) k₁.chain
          (Ordered-from (block + size) (block + 1) h.end' es₁ (omega arith) k₁.ordered) in
      let (head', m₃, e₃, l, c₃) =
        link-Linked (record h { memory = m₂ }) prev f₂ lo es₂ (Before-with h m₂ prev lo b) k₂.chain
          (Ordered-from e.addr lo h.end' es₂ le k₂.ordered) in
      let untouched : (x : ℕ) → x < lo → m₂ x ≡ h.memory x =
        λ x lt. k₂.below x (omega arith) ∙ k₁.below x (omega (arith, lo_b)) in
      (
        head',
        m₃,
        es₂,
        carve-steps h (record h { memory = m₁ }) (record h { memory = m₂ })
            (record h { head = head'; memory = m₃ }) prev e.addr block size f₁ f₂ (h.memory e.addr)
            (ap (λ n. keep_free h (block + size) n (h.memory e.addr).next) stop ∙ k₁.done) k₂.done
            e₃ (omega (arith, lo_b, r.not_null)),
        record {
          first = f₂;
          linked = record {
            head = l.head;
            pointed = λ ne.
                l.pointed ne
                ∙ ap (λ (n : Hole). record { size = n.size; next = f₂ })
                    (untouched prev (Before-lt h prev lo b ne));
            below = λ x lt ne. l.below x lt ne ∙ untouched x lt;
          };
          chain = c₃;
          ordered = Ordered-from e.addr lo h.end' es₂ le k₂.ordered;
          aligned = aligned;
          on_granule = granules;
          was_free =
              λ x within. inside_hole e.addr e.size block size x (is_free es x) lo_b hi_b within;
          still_free = λ x.
              cut_bytes e.addr e.size block size x (is_free es x) (is_free es₁ x) (is_free es₂ x)
                (k₁.free x) (k₂.free x) lo_b hi_b (free-from (e.addr + e.size + 1) h.end' x es o);
          count = omega (arith, lo_b, hi_b, k₂.count, k₁.count);
        },
      )
