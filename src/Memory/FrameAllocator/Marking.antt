-- ===== src/Memory/FrameAllocator/Marking.antt =====
-- The two passes of `BitmapFrameAllocator::new` against `manages`.
use aion_so.Base.{
  ℕ, zero, suc, ◌+◌, ◌-◌, ◌*◌, ◌/◌, ◌%◌, ◌≤◌, ◌<◌, ◌≡◌, ap, ◌∙◌, Bool, true, false, not, ◌&&◌, ◌||◌,
  List, [], ◌∷◌, arith, if◌then◌else◌, ltb, leb, length, any, min, length-replicate,
  get_or-replicate, word_max, inl, inr, Bool-cases,
}
use aion_so.Hal.MemoryMap.{MemoryRegion, MemoryRegionKind, is_kind}
use aion_so.Base.Bits.{test_bit, test_bit-not, test_bit-zero}
use aion_so.Memory.FrameAllocator.BitWords.{Bitmap, all_ones, bit, set_bit}
use aion_so.Memory.FrameAllocator.BitLaws.{
  IsWords, length-set_bit, set_bit-IsWords, bit-set_bit, bit_lem,
}
use aion_so.Memory.FrameAllocator.Regions.{inward_frames, outward_frames, Interval, holds}
use aion_so.Memory.FrameAllocator.{mark_frames, mark, offered, withheld, offer_pass, withhold_pass}

-- A bitmap of the length that the loops were computed for.
pub record IsSized (covered : ℕ) (b : Bitmap) : Type 0 where
  pub words : IsWords b
  pub size : length b * 64 ≡ covered

pub set_bit-IsSized :
    (c : ℕ) (b : Bitmap) (f : ℕ) (v : Bool) → IsSized c b → IsSized c (set_bit b f v)
set_bit-IsSized c b f v s = record {
  words = set_bit-IsWords b f v s.words;
  size = omega (arith, length-set_bit b f v, s.size);
}

mark_frames-IsSized :
    (c n f : ℕ) (v : Bool) (b : Bitmap) → IsSized c b → IsSized c (mark_frames n f v b)
unfolding mark_frames
mark_frames-IsSized c zero f v b s = s
mark_frames-IsSized c (suc n) f v b s =
    mark_frames-IsSized c n (f + 1) v (set_bit b f v) (set_bit-IsSized c b f v s)

bit-mark_frames :
    (c n f g : ℕ) (v : Bool) (b : Bitmap)
    → IsSized c b
    → f + n ≤ c
    → bit (mark_frames n f v b) g ≡ (if leb f g && ltb g (f + n) then v else bit b g)
unfolding mark_frames
bit-mark_frames c zero f g v b s h = ground arith
bit-mark_frames c (suc n) f g v b s h = ground (
  arith,
  bit-mark_frames c n (f + 1) g v (set_bit b f v) (set_bit-IsSized c b f v s) (omega arith),
  bit-set_bit b f g v (omega (arith, s.size)) s.words,
)

mark-IsSized :
    (c : ℕ) (v : Bool) (i : Interval) (b : Bitmap) → IsSized c b → IsSized c (mark v c i b)
unfolding mark
mark-IsSized c v (first, end') b s = mark_frames-IsSized c (min end' c - first) first v b s

bit-mark :
    (c g : ℕ) (v : Bool) (i : Interval) (b : Bitmap)
    → IsSized c b
    → g < c
    → bit (mark v c i b) g ≡ (if holds i g then v else bit b g)
unfolding mark holds
bit-mark c g v (first, end') b s h = elim (Bool-cases (ltb first (min end' c))) [
  | inl some' ↦ ground (arith, bit-mark_frames c (min end' c - first) first g v b s (ground arith))
  | inr none' ↦ let nothing : min end' c - first ≡ 0 = ground arith in rw nothing (ground arith)
]

pub offer_pass-IsSized :
    (c : ℕ) (rs : List MemoryRegion) (b : Bitmap) → IsSized c b → IsSized c (offer_pass c rs b)
unfolding offer_pass
offer_pass-IsSized c [] b s = s
offer_pass-IsSized c (r ∷ rs) b s =
    offer_pass-IsSized c rs _ (ground (arith, mark-IsSized c false (inward_frames r) b s))

pub bit-offer_pass :
    (c g : ℕ) (rs : List MemoryRegion) (b : Bitmap)
    → IsSized c b
    → g < c
    → bit (offer_pass c rs b) g ≡ (bit b g && not (any (offered false g) rs))
unfolding offer_pass offered
bit-offer_pass c g [] b s h = ground arith
bit-offer_pass c g (r ∷ rs) b s h = elim (Bool-cases (is_kind r.kind MemoryRegionKind.usable)) [
  | inl u ↦ rw u (
      ground (
        arith,
        bit-offer_pass c g rs (mark false c (inward_frames r) b)
            (mark-IsSized c false (inward_frames r) b s) h,
        bit-mark c g false (inward_frames r) b s h,
      ))
  | inr u ↦ rw u (ground (arith, bit-offer_pass c g rs b s h))
]

pub withhold_pass-IsSized :
    (c : ℕ) (rs : List MemoryRegion) (b : Bitmap) → IsSized c b → IsSized c (withhold_pass c rs b)
unfolding withhold_pass
withhold_pass-IsSized c [] b s = s
withhold_pass-IsSized c (r ∷ rs) b s =
    withhold_pass-IsSized c rs _ (ground (arith, mark-IsSized c true (outward_frames r) b s))

pub bit-withhold_pass :
    (c g : ℕ) (rs : List MemoryRegion) (b : Bitmap)
    → IsSized c b
    → g < c
    → bit (withhold_pass c rs b) g ≡ (bit b g || any (withheld false g) rs)
unfolding withhold_pass withheld
bit-withhold_pass c g [] b s h = ground arith
bit-withhold_pass c g (r ∷ rs) b s h = elim (Bool-cases (is_kind r.kind MemoryRegionKind.usable)) [
  | inl u ↦ rw u (ground (arith, bit-withhold_pass c g rs b s h))
  | inr u ↦ rw u (
      ground (
        arith,
        bit-withhold_pass c g rs (mark true c (outward_frames r) b)
            (mark-IsSized c true (outward_frames r) b s) h,
        bit-mark c g true (outward_frames r) b s h,
      ))
]

pub all_ones-IsSized : (n : ℕ) → IsSized (n * 64) (all_ones n)
all_ones-IsSized n = record {
  words = go n;
  size = ap (λ (t : ℕ). t * 64) (length-replicate n word_max);
}
  where
    go : (k : ℕ) → IsWords (all_ones k)
    go zero = tt
    go (suc k) = (omega arith, go k)

pub max_bits : (j : ℕ) → j < 64 → test_bit word_max j ≡ true
max_bits j h = test_bit-not 64 0 j (omega arith) h ∙ ap not (test_bit-zero j)

pub bit-all_ones : (n g : ℕ) → g < n * 64 → bit (all_ones n) g ≡ true
bit-all_ones n g h =
    bit_lem (all_ones n) g
    ∙ (ap (λ w. test_bit w (g % 64)) (get_or-replicate n (g / 64) word_max 0 (omega arith))
        ∙ max_bits (g % 64) (omega arith))
