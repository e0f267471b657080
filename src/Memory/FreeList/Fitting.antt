-- ===== src/Memory/FreeList/Fitting.antt =====
-- Rounding requests to granules, and where a block goes in a hole.
use native.Mathlib.Nat.{
  mod-lt, mod_self, div-add-mod, mul-add-mod_self_left, dvd_of_mod-eq-zero, mod-eq-zero_of_dvd,
  dvd_trans, pow-succ', mul-le-mul_left, one-le-pow,
}
use native.Mathlib.Decide.{dec_lt}
use aion_so.Base.{
  ℕ, zero, suc, ◌+◌, ◌-◌, ◌*◌, ◌/◌, ◌%◌, ◌^◌, ◌≤◌, ◌<◌, ◌≡◌, ◌≢◌, inl, inr, refl, sym, ap, ◌∙◌, max,
  none, some, ◌==◌, ==→ne, arith, word_size, checked_next_multiple_of, Bool-cases, Option-cases,
}
use aion_so.Memory.FreeList.{Layout, granule, block_size, fit}

-- `Layout` holds an alignment that is a power of two.
abbrev pub IsLayout : Layout → Type 0
IsLayout layout = (k : ℕ) × (layout.align ≡ 2 ^ k)

next_multiple-mod : (c a : ℕ) → 0 < a → (c + (a - c % a)) % a ≡ 0
next_multiple-mod c a pos =
    let e : c + (a - c % a) ≡ a * (c / a) + a = omega (arith, div-add-mod c a, mod-lt c pos) in
    rw e (mul-add-mod_self_left a (c / a) a ∙ mod_self a)

pub next_multiple :
    (c a m : ℕ)
    → 0 < a
    → checked_next_multiple_of c a ≡ some m
    → (c ≤ m) × (m < c + a) × (m % a ≡ 0)
next_multiple c a m pos h = elim (Bool-cases (c % a == 0)) [
  | inl already ↦ ground (arith)
  | inr off ↦ ground (arith, next_multiple-mod c a pos, mod-lt c pos)
]

pub block_size-some :
    (layout : Layout) (size : ℕ)
    → block_size layout ≡ some size
    → (layout.size ≤ size) × (granule ≤ size) × (size % granule ≡ 0)
unfolding block_size
block_size-some layout size h = ground (arith, next_multiple (max layout.size 1) 16 size)

-- Rounded up to a granule at least, the alignment is whole granules.
granule_of_large : (k : ℕ) → 2 ^ (suc (suc (suc (suc k)))) % granule ≡ 0
granule_of_large k = omega (
  arith,
  pow-succ' 2 (suc (suc (suc k))),
  pow-succ' 2 (suc (suc k)),
  pow-succ' 2 (suc k),
  pow-succ' 2 k,
)

pow-granule : (k : ℕ) → max (2 ^ k) granule % granule ≡ 0
pow-granule zero = refl
pow-granule (suc zero) = refl
pow-granule (suc (suc zero)) = refl
pow-granule (suc (suc (suc zero))) = refl
pow-granule (suc (suc (suc (suc k)))) = omega (arith, granule_of_large k)

pub align-granule : (layout : Layout) → IsLayout layout → max layout.align granule % granule ≡ 0
align-granule layout (k, e) = rw e (pow-granule k)

-- The block lies in the hole, at the alignment, on a granule.
pub fit-some :
    (current hole_end size align block : ℕ)
    → 0 < align
    → align % granule ≡ 0
    → fit current hole_end size align ≡ some block
    → (current ≤ block) × (block + size ≤ hole_end) × (block % align ≡ 0) × (block % granule ≡ 0)
unfolding fit
fit-some current hole_end size align block pos whole h =
    elim (Option-cases (checked_next_multiple_of current align)) [
      | inl e ↦ absurd (ground arith)
      | inr (b, e) ↦
          let (lo, hi, multiple) = next_multiple current align b pos e in
          let granules : b % granule ≡ 0 = mod-eq-zero_of_dvd granule (
            dvd_trans granule (dvd_of_mod-eq-zero granule whole)
              (dvd_of_mod-eq-zero align multiple)) in
          let at : (b ≡ block) × (b + size ≤ hole_end) = ground arith in
          rw (← at.0) (lo, at.1, multiple, granules)
    ]

-- The rounding is to the next multiple: none lies between.
next_multiple-least : (c a b : ℕ) → 0 < a → b % a ≡ 0 → c ≤ b → c % a ≢ 0 → c + (a - c % a) ≤ b
next_multiple-least c a b pos multiple le ne = elim (dec_lt (c / a) (b / a)) [
  | yes more ↦
      let further : a * (c / a + 1) ≤ a * (b / a) = mul-le-mul_left a (omega arith) in
      let one_more : a * (c / a + 1) ≡ a * (c / a) + a = omega arith in
      omega (arith, div-add-mod c a, div-add-mod b a, mod-lt c pos)
  | no less ↦
      let short : a * (b / a) ≤ a * (c / a) = mul-le-mul_left a (omega arith) in
      absurd (omega (arith, div-add-mod c a, div-add-mod b a))
]

-- A request that does not fit has no aligned block in the hole.
pub fit-none :
    (current hole_end size align b : ℕ)
    → 0 < align
    → hole_end < word_size
    → fit current hole_end size align ≡ none
    → current ≤ b
    → b % align ≡ 0
    → b + size ≤ hole_end
    → ⊥
unfolding fit
fit-none current hole_end size align b pos small h lo multiple hi =
    elim (Bool-cases (current % align == 0)) [
      | inl already ↦ ground arith
      | inr off ↦
          ground (arith, next_multiple-least current align b pos multiple lo (==→ne _ _ off))
    ]

four_doublings : (k : ℕ) → 16 ≤ 2 ^ (suc (suc (suc (suc k))))
four_doublings k = omega (
  arith,
  pow-succ' 2 (suc (suc (suc k))),
  pow-succ' 2 (suc (suc k)),
  pow-succ' 2 (suc k),
  pow-succ' 2 k,
  one-le-pow k 2 (omega arith),
)

mod-pow : (k b : ℕ) → b % max (2 ^ k) granule ≡ 0 → b % 2 ^ k ≡ 0
mod-pow zero b h = omega arith
mod-pow (suc zero) b h = omega arith
mod-pow (suc (suc zero)) b h = omega arith
mod-pow (suc (suc (suc zero))) b h = omega arith
mod-pow (suc (suc (suc (suc k)))) b h =
    let e : max (2 ^ (suc (suc (suc (suc k))))) 16 ≡ 2 ^ (suc (suc (suc (suc k)))) =
      omega (arith, four_doublings k) in
    ap (λ n. b % n) (sym e) ∙ h

pub mod-align :
    (layout : Layout) (b : ℕ)
    → IsLayout layout
    → b % max layout.align granule ≡ 0
    → b % layout.align ≡ 0
mod-align layout b (k, e) h = rw e (mod-pow k b (ap (λ n. b % max n granule) (sym e) ∙ h))
