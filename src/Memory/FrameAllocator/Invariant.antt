-- ===== src/Memory/FrameAllocator/Invariant.antt =====
-- The invariant of the frame allocator, and that `new` establishes it.
use aion_so.Base.{
  ℕ, ◌*◌, ◌≤◌, ◌<◌, ◌≡◌, refl, Bool, true, false, not, ◌||◌, arith, ◌==◌, length, any, word_size,
  mul64,
}
use aion_so.Hal.Frame.{number, containing_address}
use aion_so.Hal.MemoryMap.{MemoryMap, iter}
use aion_so.Memory.FrameAllocator.BitWords.{Bitmap, all_ones, bit, free_words}
use aion_so.Memory.FrameAllocator.BitLaws.{IsWords, bit-set_bit}
use aion_so.Memory.FrameAllocator.Marking.{
  IsSized, set_bit-IsSized, offer_pass-IsSized, withhold_pass-IsSized, bit-offer_pass,
  bit-withhold_pass, all_ones-IsSized, bit-all_ones,
}
use aion_so.Memory.FrameAllocator.{
  Allocator, covered_frames, frame_at, offered, withheld, offer_pass, withhold_pass, initial_bitmap,
  new, manages_number, manages,
}

-- Every frame that the bitmap covers has an address below 2^64.
abbrev pub Fits : ℕ → Type 0
Fits words = words * 262144 ≤ word_size

pub record IsValid (a : Allocator) : Type 0 where
  pub words : IsWords a.bitmap
  pub fits : Fits (length a.bitmap)
  pub counted : a.free ≡ free_words a.bitmap
  pub managed :
      (g : ℕ) → g < length a.bitmap * 64 → bit a.bitmap g ≡ false → manages_number a g ≡ true
  pub searched : a.next_word ≤ length a.bitmap

-- Frame numbers and frames correspond, below the covered range.
pub number-frame_at : (g n : ℕ) → Fits n → g < n * 64 → number (frame_at g) ≡ g
unfolding number frame_at containing_address
number-frame_at g n h lt = omega arith

initial_bitmap-IsSized :
    (n : ℕ) (map : MemoryMap) → Fits n → IsSized (n * 64) (initial_bitmap n map)
unfolding initial_bitmap
initial_bitmap-IsSized n map h =
    let c : mul64 n 64 ≡ n * 64 = omega arith in
    let passed : IsSized (n * 64)
        (withhold_pass (n * 64) (iter map) (offer_pass (n * 64) (iter map) (all_ones n))) =
      withhold_pass-IsSized (n * 64) (iter map) _
        (offer_pass-IsSized (n * 64) (iter map) (all_ones n) (all_ones-IsSized n)) in
    rw c (
      ground (
        arith,
        passed,
        set_bit-IsSized (n * 64)
            (withhold_pass (n * 64) (iter map) (offer_pass (n * 64) (iter map) (all_ones n))) 0 true
            passed,
      ))

abbrev not_managed_by : ℕ → MemoryMap → ℕ → Bool
not_managed_by n map g =
    g == 0 || (not (any (offered false g) (iter map)) || any (withheld false g) (iter map))

bit-initial_bitmap :
    (n g : ℕ) (map : MemoryMap)
    → Fits n
    → g < n * 64
    → bit (initial_bitmap n map) g ≡ not_managed_by n map g
unfolding initial_bitmap
bit-initial_bitmap n g map h lt =
    let c : mul64 n 64 ≡ n * 64 = omega arith in
    let off : Bitmap = offer_pass (n * 64) (iter map) (all_ones n) in
    let so : IsSized (n * 64) off =
      offer_pass-IsSized (n * 64) (iter map) (all_ones n) (all_ones-IsSized n) in
    let passed : Bitmap = withhold_pass (n * 64) (iter map) off in
    let sp : IsSized (n * 64) passed = withhold_pass-IsSized (n * 64) (iter map) off so in
    rw c (
      ground (
        arith,
        bit-set_bit passed 0 g true (omega (arith, sp.size)) sp.words,
        bit-withhold_pass (n * 64) g (iter map) off so lt,
        bit-offer_pass (n * 64) g (iter map) (all_ones n) (all_ones-IsSized n) lt,
        bit-all_ones n g lt,
      ))

length-initial_bitmap : (n : ℕ) (map : MemoryMap) → Fits n → length (initial_bitmap n map) ≡ n
length-initial_bitmap n map h = omega (arith, (initial_bitmap-IsSized n map h).size)

-- A new allocator is valid, has the length of its storage, and has free exactly the frames that
-- `manages` accepts: the two passes over the map decide the same question.
pub new_lem :
    (storage : Bitmap) (map : MemoryMap)
    → Fits (length storage)
    → let a = new storage map in
      IsValid a
      × (length a.bitmap ≡ length storage)
      × ((g : ℕ) → g < length storage * 64 → bit a.bitmap g ≡ not (manages a (frame_at g)))
unfolding new manages manages_number covered_frames
new_lem storage map h =
    let n : ℕ = length storage in
    let len : length (initial_bitmap n map) ≡ n = length-initial_bitmap n map h in
    (
      record {
        words = (initial_bitmap-IsSized n map h).words;
        fits = omega (arith, len);
        counted = refl;
        managed =
            λ g lt off. ground (arith, len, bit-initial_bitmap n g map h (omega (arith, len)));
        searched = omega arith;
      },
      len,
      λ g lt. rw (number-frame_at g n h lt, len) (ground (arith, bit-initial_bitmap n g map h lt)),
    )
