-- ===== src/Memory/FrameAllocator/Sweep.antt =====
-- The loops of `reclaim_boot_services`, and what they have changed on the way.
use aion_so.Base.{
  ℕ, zero, suc, ◌+◌, ◌-◌, ◌*◌, ◌≤◌, ◌<◌, ◌≡◌, ap, ◌∙◌, Bool, true, false, not, ◌&&◌, ◌||◌, List, [],
  ◌∷◌, arith, ◌==◌, ltb, leb, length, inl, inr, Bool-cases, min, any,
}
use aion_so.Hal.MemoryMap.{MemoryRegion, MemoryRegionKind, is_kind}
use aion_so.Memory.FrameAllocator.BitWords.{bit, set_bit, free_words}
use aion_so.Memory.FrameAllocator.BitLaws.{
  IsWords, length-set_bit, set_bit-IsWords, bit-set_bit, free_words-clear_bit, free_words-le,
}
use aion_so.Memory.FrameAllocator.Regions.{inward_frames, Interval, holds}
use aion_so.Memory.FrameAllocator.Invariant.{Fits, number-frame_at}
use aion_so.Memory.FrameAllocator.Allocate.{manages_number-congr}
use aion_so.Memory.FrameAllocator.Release.{
  reclaim_frame, reclaim_frames, reclaim_interval, reclaim_regions,
}
use aion_so.Memory.FrameAllocator.{Allocator, frame_at, manages, manages_number}

-- The loops so far, from `a`, having visited the frames of `P`.
pub record Visited (a : Allocator) (P : ℕ → Bool) (s : Allocator × ℕ) : Type 0 where
  pub rest : s.0 ≡ record a { bitmap = s.0.bitmap }
  pub size : length s.0.bitmap ≡ length a.bitmap
  pub words : IsWords s.0.bitmap
  pub bits :
      (g : ℕ)
      → g < length a.bitmap * 64
      → bit s.0.bitmap g ≡ (bit a.bitmap g && not (P g && manages_number a g))
  pub count : free_words s.0.bitmap ≡ free_words a.bitmap + s.1

pub Visited-congr :
    (a : Allocator) (P Q : ℕ → Bool) (s : Allocator × ℕ)
    → ((g : ℕ) → g < length a.bitmap * 64 → P g ≡ Q g)
    → Visited a P s
    → Visited a Q s
Visited-congr a P Q s c v = record {
  rest = v.rest;
  size = v.size;
  words = v.words;
  bits = λ g h. v.bits g h ∙ ap (λ b. bit a.bitmap g && not (b && manages_number a g)) (c g h);
  count = v.count;
}

-- A boot-services region that holds the whole frame.
abbrev pub in_boot : ℕ → MemoryRegion → Bool
in_boot g r = is_kind r.kind MemoryRegionKind.boot_services && holds (inward_frames r) g

module _ (a : Allocator) (fits : Fits (length a.bitmap)) where
  held_alike :
      (P : ℕ → Bool) (s : Allocator × ℕ) (n : ℕ)
      → Visited a P s
      → n < length a.bitmap * 64
      → manages s.0 (frame_at n) ≡ manages_number a n
  unfolding manages
  held_alike P s n v h =
      ap (manages_number s.0) (number-frame_at n (length a.bitmap) fits h)
      ∙ manages_number-congr s.0 a n v.size (ap (λ (b : Allocator). b.map) v.rest)
          (ap (λ (b : Allocator). b.boot_services_reclaimed) v.rest)

  reclaim_frame-Visited :
      (P : ℕ → Bool) (b : Allocator) (added n : ℕ)
      → Visited a P (b, added)
      → n < length a.bitmap * 64
      → Visited a (λ g. P g || n == g) (reclaim_frame b n added)
  unfolding reclaim_frame
  reclaim_frame-Visited P b added n v h =
      let same : manages b (frame_at n) ≡ manages_number a n = held_alike P (b, added) n v h in
      elim (Bool-cases (manages b (frame_at n) && bit b.bitmap n)) [
        | inl take ↦ rw take (record {
          rest = ap (λ (t : Allocator). record t { bitmap = set_bit b.bitmap n false }) v.rest;
          size = length-set_bit b.bitmap n false ∙ v.size;
          words = set_bit-IsWords b.bitmap n false v.words;
          bits = λ g lt. ground (
            arith,
            bit-set_bit b.bitmap n g false (omega (arith, v.size)) v.words,
            v.bits g lt,
            same,
            take,
            ap (manages_number a) {x = n} {y = g},
            ap (bit b.bitmap) {x = n} {y = g},
          );
          count = omega (
            arith,
            v.count,
            v.size,
            fits,
            free_words-le (set_bit b.bitmap n false),
            length-set_bit b.bitmap n false,
            free_words-clear_bit b.bitmap n (omega (arith, v.size)) v.words (ground (arith, take)),
          );
        })
        | inr leave ↦ rw leave (record {
          rest = v.rest;
          size = v.size;
          words = v.words;
          bits = λ g lt. ground (
            arith,
            v.bits g lt,
            same,
            leave,
            v.bits n h,
            ap (manages_number a) {x = n} {y = g},
            ap (bit a.bitmap) {x = n} {y = g},
            ap (bit b.bitmap) {x = n} {y = g},
            ap P {x = n} {y = g},
          );
          count = v.count;
        })
      ]

  reclaim_frames-Visited :
      (k n : ℕ) (P : ℕ → Bool) (s : Allocator × ℕ)
      → Visited a P s
      → n + k ≤ length a.bitmap * 64
      → Visited a (λ g. P g || (leb n g && ltb g (n + k))) (reclaim_frames k n s)
  unfolding reclaim_frames
  reclaim_frames-Visited zero n P (b, added) v h =
      Visited-congr a P _ (b, added) (λ g lt. ground arith) v
  reclaim_frames-Visited (suc k) n P (b, added) v h =
      Visited-congr a _ _ _ (λ g lt. ground arith)
        (reclaim_frames-Visited k (n + 1) (λ g. P g || n == g) (reclaim_frame b n added)
          (reclaim_frame-Visited P b added n v (omega arith)) (omega arith))

  reclaim_interval-Visited :
      (i : Interval) (P : ℕ → Bool) (s : Allocator × ℕ)
      → Visited a P s
      → Visited a (λ g. P g || holds i g) (reclaim_interval (length a.bitmap * 64) i s)
  unfolding reclaim_interval holds
  reclaim_interval-Visited (first, end') P s v =
      let c : ℕ = length a.bitmap * 64 in
      elim (Bool-cases (ltb first (min end' c))) [
        | inl go ↦
            Visited-congr a _ _ _ (λ g lt. ground arith)
              (reclaim_frames-Visited (min end' c - first) first P s v (ground arith))
        | inr stop ↦
            let nothing : min end' c - first ≡ 0 = ground arith in
            rw nothing (Visited-congr a P _ s (λ g lt. ground arith) v)
      ]

  pub reclaim_regions-Visited :
      (rs : List MemoryRegion) (P : ℕ → Bool) (s : Allocator × ℕ)
      → Visited a P s
      → Visited a (λ g. P g || any (in_boot g) rs) (reclaim_regions (length a.bitmap * 64) rs s)
  unfolding reclaim_regions
  reclaim_regions-Visited [] P s v = Visited-congr a P _ s (λ g lt. ground arith) v
  reclaim_regions-Visited (r ∷ rs) P s v =
      elim (Bool-cases (is_kind r.kind MemoryRegionKind.boot_services)) [
        | inl boot ↦ rw boot (
            Visited-congr a _ _ _ (λ g lt. ground arith)
              (reclaim_regions-Visited rs _ _ (reclaim_interval-Visited (inward_frames r) P s v)))
        | inr other ↦
            rw other
              (Visited-congr a _ _ _ (λ g lt. ground arith) (reclaim_regions-Visited rs P s v))
      ]

unfoldable pub flagged : Allocator → Allocator
flagged a = record a { boot_services_reclaimed = true }
