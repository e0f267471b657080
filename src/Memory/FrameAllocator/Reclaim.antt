-- ===== src/Memory/FrameAllocator/Reclaim.antt =====
-- Taking over the boot-services memory: which frames `reclaim_boot_services` adds.
use aion_so.Base.{
  ℕ, ◌+◌, ◌*◌, ◌%◌, ◌<◌, ◌≡◌, refl, sym, ap, ◌∙◌, true, false, not, ◌&&◌, List, [], ◌∷◌, arith,
  length, inl, inr, Bool-cases, word_size, add64, any,
}
use aion_so.Hal.MemoryMap.{MemoryRegion, iter}
use aion_so.Memory.FrameAllocator.BitWords.{bit, free_words}
use aion_so.Memory.FrameAllocator.BitLaws.{free_words-le}
use aion_so.Memory.FrameAllocator.Regions.{inward_frames, outward_frames, holds}
use aion_so.Memory.FrameAllocator.Invariant.{IsValid}
use aion_so.Memory.FrameAllocator.Allocate.{manages_number-congr}
use aion_so.Memory.FrameAllocator.Release.{reclaim_regions, reclaim_boot_services}
use aion_so.Memory.FrameAllocator.{Allocator, manages_number, covered_frames, offered, withheld}
use aion_so.Memory.FrameAllocator.Sweep.{
  Visited, Visited-congr, in_boot, reclaim_regions-Visited, flagged,
}

-- Rounding inwards stays within rounding outwards.
inward_outward :
    (r : MemoryRegion) (g : ℕ)
    → holds (inward_frames r) g ≡ true
    → holds (outward_frames r) g ≡ true
unfolding holds inward_frames outward_frames
inward_outward r g h = ground arith

-- A frame that was managed before lies whole in no boot-services region.
not-in_boot :
    (g : ℕ) (rs : List MemoryRegion)
    → any (withheld false g) rs ≡ false
    → any (in_boot g) rs ≡ false
unfolding withheld
not-in_boot g [] h = refl
not-in_boot g (r ∷ rs) h = ground (arith, inward_outward r g, not-in_boot g rs)

offered_mono :
    (g : ℕ) (rs : List MemoryRegion)
    → any (offered false g) rs ≡ true
    → any (offered true g) rs ≡ true
unfolding offered
offered_mono g [] h = h
offered_mono g (r ∷ rs) h = ground (arith, offered_mono g rs)

withheld_anti :
    (g : ℕ) (rs : List MemoryRegion)
    → any (withheld false g) rs ≡ false
    → any (withheld true g) rs ≡ false
unfolding withheld
withheld_anti g [] h = h
withheld_anti g (r ∷ rs) h = ground (arith, withheld_anti g rs)

-- What was managed stays managed.
managed_mono :
    (a : Allocator) (g : ℕ)
    → a.boot_services_reclaimed ≡ false
    → manages_number a g ≡ true
    → manages_number (flagged a) g ≡ true
unfolding manages_number covered_frames flagged
managed_mono a g off m = ground (arith, offered_mono g (iter a.map), withheld_anti g (iter a.map))

managed_outside :
    (a : Allocator) (g : ℕ)
    → a.boot_services_reclaimed ≡ false
    → manages_number a g ≡ true
    → any (in_boot g) (iter a.map) ≡ false
unfolding manages_number covered_frames
managed_outside a g off m = ground (arith, not-in_boot g (iter a.map))

-- The allocator after, on an allocator that has not reclaimed yet.
abbrev pub Reclaimed : Allocator → Allocator × ℕ → Type 0
Reclaimed a (b, added) =
    IsValid b
    × (b.boot_services_reclaimed ≡ true)
    × (b.free ≡ a.free + added)
    × ((g : ℕ)
        → g < length a.bitmap * 64
        → bit b.bitmap g
          ≡ (bit a.bitmap g && not (any (in_boot g) (iter a.map) && manages_number b g)))
    × ((g : ℕ)
        → g < length a.bitmap * 64
        → manages_number a g ≡ true
        → bit b.bitmap g ≡ bit a.bitmap g)
    × (reclaim_boot_services b ≡ (b, 0))

start : (a : Allocator) → IsValid a → Visited (flagged a) (λ g. false) (flagged a, 0)
unfolding flagged
start a v = record {
  rest = refl;
  size = refl;
  words = v.words;
  bits = λ g h. ground arith;
  count = omega arith;
}

swept : (a : Allocator) → Allocator × ℕ
swept a = reclaim_regions (length a.bitmap * 64) (iter a.map) (flagged a, 0)

swept-Visited :
    (a : Allocator) → IsValid a → Visited (flagged a) (λ g. any (in_boot g) (iter a.map)) (swept a)
unfolding swept flagged
swept-Visited a v =
    Visited-congr (flagged a) _ _ _ (λ g h. refl)
      (reclaim_regions-Visited (flagged a) v.fits (iter a.map) (λ g. false) (flagged a, 0)
        (start a v))

counted : Allocator × ℕ → Allocator
counted s = record (s.0) { free = add64 s.0.free s.1 }

same_bitmap : (a : Allocator) → (counted (swept a)).bitmap ≡ (swept a).0.bitmap
unfolding counted
same_bitmap a = refl

reclaim_open :
    (a : Allocator)
    → IsValid a
    → a.boot_services_reclaimed ≡ false
    → reclaim_boot_services a ≡ (counted (swept a), (swept a).1)
unfolding reclaim_boot_services counted swept flagged covered_frames
reclaim_open a v off =
    let e : (length a.bitmap * 64) % word_size ≡ length a.bitmap * 64 = omega (arith, v.fits) in
    rw (off, e)

module _ (a : Allocator) (v : IsValid a) (off : a.boot_services_reclaimed ≡ false) where
  w : Visited (flagged a) (λ g. any (in_boot g) (iter a.map)) (swept a)
  w = swept-Visited a v

  counted_alike : (g : ℕ) → manages_number (counted (swept a)) g ≡ manages_number (flagged a) g
  unfolding counted
  counted_alike g =
      manages_number-congr (counted (swept a)) (flagged a) g w.size
        (ap (λ (b : Allocator). b.map) w.rest)
        (ap (λ (b : Allocator). b.boot_services_reclaimed) w.rest)

  size-flagged : length (swept a).0.bitmap ≡ length a.bitmap
  unfolding flagged
  size-flagged = w.size

  free-counted : (counted (swept a)).free ≡ a.free + (swept a).1
  unfolding counted flagged
  free-counted = omega (
    arith,
    w.count,
    v.counted,
    v.fits,
    free_words-le (swept a).0.bitmap,
    size-flagged,
    ap (λ (b : Allocator). b.free) w.rest,
  )

  bits-swept :
      (g : ℕ)
      → g < length a.bitmap * 64
      → bit (swept a).0.bitmap g
        ≡ (bit a.bitmap g && not (any (in_boot g) (iter a.map) && manages_number (flagged a) g))
  unfolding flagged
  bits-swept g h = w.bits g h

  clear-managed :
      (g : ℕ)
      → g < length a.bitmap * 64
      → bit (swept a).0.bitmap g ≡ false
      → manages_number (flagged a) g ≡ true
  clear-managed g h clear = elim (Bool-cases (manages_number (flagged a) g)) [
    | inl yes' ↦ yes'
    | inr no' ↦ managed_mono a g off (v.managed g h (ground (arith, bits-swept g h)))
  ]

  count-swept : free_words (swept a).0.bitmap ≡ a.free + (swept a).1
  unfolding flagged
  count-swept = omega (arith, w.count, v.counted)

  next-swept : (swept a).0.next_word ≡ a.next_word
  unfolding flagged
  next-swept = ap (λ (b : Allocator). b.next_word) w.rest

  counted-IsValid : IsValid (counted (swept a))
  unfolding counted
  counted-IsValid = record {
    words = w.words;
    fits = omega (arith, size-flagged, v.fits);
    counted = omega (arith, free-counted, count-swept);
    managed = λ g h clear. counted_alike g ∙ clear-managed g (omega (arith, size-flagged)) clear;
    searched = omega (arith, size-flagged, v.searched, next-swept);
  }

  unmoved :
      (g : ℕ)
      → g < length a.bitmap * 64
      → manages_number a g ≡ true
      → bit (swept a).0.bitmap g ≡ bit a.bitmap g
  unmoved g h m = ground (arith, bits-swept g h, managed_outside a g off m)

  flag-swept : (counted (swept a)).boot_services_reclaimed ≡ true
  unfolding counted flagged
  flag-swept = ap (λ (b : Allocator). b.boot_services_reclaimed) w.rest

  again : reclaim_boot_services (counted (swept a)) ≡ (counted (swept a), 0)
  unfolding reclaim_boot_services
  again = rw flag-swept

-- On a valid allocator that has not taken the boot-services memory yet, the call leaves a valid
-- allocator that has: it frees exactly the frames that lie whole in a boot-services region and are
-- managed from now on, counts each that was not free before, moves no frame that was managed
-- before, and a second call adds nothing and changes nothing.
pub reclaim_lem :
    (a : Allocator)
    → IsValid a
    → a.boot_services_reclaimed ≡ false
    → Reclaimed a (reclaim_boot_services a)
reclaim_lem a v off = rw (reclaim_open a v off) (
  counted-IsValid a v off,
  flag-swept a v off,
  free-counted a v off,
  (λ g h. bits g h),
  (λ g h m. moved g h m),
  again a v off,
)
  where
    same : (counted (swept a)).bitmap ≡ (swept a).0.bitmap
    same = same_bitmap a

    bits :
        (g : ℕ)
        → g < length a.bitmap * 64
        → bit (counted (swept a)).bitmap g ≡ (
            bit a.bitmap g
            && not (any (in_boot g) (iter a.map) && manages_number (counted (swept a)) g))
    bits g h =
        ap (λ b. bit b g) same
        ∙ (bits-swept a v off g h
            ∙ ap (λ m. bit a.bitmap g && not (any (in_boot g) (iter a.map) && m))
                (sym (counted_alike a v off g)))

    moved :
        (g : ℕ)
        → g < length a.bitmap * 64
        → manages_number a g ≡ true
        → bit (counted (swept a)).bitmap g ≡ bit a.bitmap g
    moved g h m = ap (λ b. bit b g) same ∙ unmoved a v off g h m
