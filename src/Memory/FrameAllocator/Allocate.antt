-- ===== src/Memory/FrameAllocator/Allocate.antt =====
-- What `allocate` and `allocate_for` hand out.
use native.Mathlib.Decide.{ℕ_discrete}
use aion_so.Base.{
  ℕ, ◌+◌, ◌-◌, ◌*◌, ◌/◌, ◌%◌, ◌<◌, ◌≡◌, ◌≢◌, ◌⊎◌, refl, sym, ap, ◌∙◌, true, false, ◌||◌, arith,
  ◌==◌, length, get_or, word_max, inl, inr, some, none, mul64, add64, length-set,
}
use aion_so.Base.Bits.{test_bit}
use aion_so.Base.BitCount.{trailing_zeros, first_clear, test_bit-set, set-lt-word}
use aion_so.Hal.Frame.{PhysFrame, number}
use aion_so.Memory.FrameAllocator.BitWords.{bit, free_words, take_bit}
use aion_so.Memory.FrameAllocator.BitLaws.{
  bit_lem, bit-set, word-lt, set-IsWords, free_words-set_word, free_words-le,
}
use aion_so.Memory.FrameAllocator.Search.{scan_finds, bit_of_none_free}
use aion_so.Memory.FrameAllocator.Invariant.{IsValid, number-frame_at}
use aion_so.Memory.FrameAllocator.{
  Allocator, frame_at, manages, manages_number, covered_frames, allocate, taken, taken_frame,
}

-- `manages` asks the map, the reclaimed flag and the length only.
pub manages_number-congr :
    (a b : Allocator) (n : ℕ)
    → length a.bitmap ≡ length b.bitmap
    → a.map ≡ b.map
    → a.boot_services_reclaimed ≡ b.boot_services_reclaimed
    → manages_number a n ≡ manages_number b n
unfolding manages_number covered_frames
manages_number-congr a b n len map flag = rw (len, map, flag)

-- A step that hands out the free frame `f` and nothing else.
pub record Took (a : Allocator) (f : PhysFrame) (a' : Allocator) : Type 0 where
  pub inside : number f < length a.bitmap * 64
  pub named : frame_at (number f) ≡ f
  pub was_free : bit a.bitmap (number f) ≡ false
  pub managed : manages a f ≡ true
  pub only : (g : ℕ) → bit a'.bitmap g ≡ (number f == g || bit a.bitmap g)
  pub one_less : a'.free + 1 ≡ a.free
  pub size : length a'.bitmap ≡ length a.bitmap
  pub map : a'.map ≡ a.map
  pub flag : a'.boot_services_reclaimed ≡ a.boot_services_reclaimed
  pub table : a'.purposes ≡ a.purposes

module _ (a : Allocator) (v : IsValid a) (i : ℕ) (hi : i < length a.bitmap)
    (partial : get_or a.bitmap i 0 ≢ word_max) where
  abbrev position : ℕ
  position = trailing_zeros 64 (word_max - get_or a.bitmap i 0)

  clear : (position < 64) × (test_bit (get_or a.bitmap i 0) position ≡ false)
  clear = first_clear (get_or a.bitmap i 0) (word-lt a.bitmap i v.words) partial

  named : taken_frame (take_bit a.bitmap i) ≡ frame_at (i * 64 + position)
  unfolding taken_frame
  named =
      let e : add64 (mul64 i 64) position ≡ i * 64 + position = omega (arith, clear, v.fits) in
      ap frame_at e

  frame_number : number (taken_frame (take_bit a.bitmap i)) ≡ i * 64 + position
  frame_number =
      ap number named
      ∙ number-frame_at (i * 64 + position) (length a.bitmap) v.fits (omega (arith, clear))

  was_clear : bit a.bitmap (i * 64 + position) ≡ false
  was_clear =
      let q : (i * 64 + position) / 64 ≡ i = omega (arith, clear) in
      let r : (i * 64 + position) % 64 ≡ position = omega (arith, clear) in
      bit_lem a.bitmap (i * 64 + position) ∙ rw (q, r) clear.1

  count-after : free_words (take_bit a.bitmap i).after + 1 ≡ free_words a.bitmap
  count-after = free_words-set_word a.bitmap i position hi clear.0 clear.1

  bit-after :
      (g : ℕ) → bit (take_bit a.bitmap i).after g ≡ (i * 64 + position == g || bit a.bitmap g)
  bit-after g =
      bit-set a.bitmap i position _ g true hi clear.0 v.words
        (λ j. ground (arith, test_bit-set (get_or a.bitmap i 0) position j))
      ∙ ground arith

  taken-managed : manages a (taken_frame (take_bit a.bitmap i)) ≡ true
  unfolding manages
  taken-managed =
      v.managed (number (taken_frame (take_bit a.bitmap i))) (omega (arith, frame_number, clear))
        (ap (bit a.bitmap) frame_number ∙ was_clear)

  taken-Took : Took a (taken_frame (take_bit a.bitmap i)) (taken a (take_bit a.bitmap i))
  unfolding taken
  taken-Took = record {
    inside = omega (arith, frame_number, clear);
    named = ap frame_at frame_number ∙ sym named;
    was_free = ap (bit a.bitmap) frame_number ∙ was_clear;
    managed = taken-managed;
    only = λ g. bit-after g ∙ ap (λ n. n == g || bit a.bitmap g) (sym frame_number);
    one_less = omega (arith, count-after, v.counted, v.fits, free_words-le a.bitmap);
    size = length-set a.bitmap i _;
    map = refl;
    flag = refl;
    table = refl;
  }

  taken-IsValid : IsValid (taken a (take_bit a.bitmap i))
  unfolding taken
  taken-IsValid =
      let size : length (take_bit a.bitmap i).after ≡ length a.bitmap = length-set a.bitmap i _ in
      record {
        words =
            set-IsWords a.bitmap i _
              (set-lt-word (get_or a.bitmap i 0) position (word-lt a.bitmap i v.words) clear.0)
              v.words;
        fits = omega (arith, size, v.fits);
        counted = omega (arith, count-after, v.counted, v.fits, free_words-le a.bitmap);
        managed = λ g lt off.
            manages_number-congr (taken a (take_bit a.bitmap i)) a g size refl refl
            ∙ v.managed g (omega (arith, size)) (ground (arith, bit-after g));
        searched = omega (arith, size);
      }

-- On a valid allocator `allocate` answers `none` only when every frame of the bitmap is held, and
-- then changes nothing. Otherwise it hands out a frame that was free and that `manages` accepts,
-- sets its bit and no other, counts one free frame less, and leaves the allocator valid.
pub allocate_lem :
    (a : Allocator)
    → IsValid a
    → ((allocate a ≡ (none, a))
        × (a.free ≡ 0)
        × ((g : ℕ) → g < length a.bitmap * 64 → bit a.bitmap g ≡ true))
      ⊎ ((f : PhysFrame) × (a' : Allocator) × (allocate a ≡ (some f, a'))
          × Took a f a'
          × IsValid a')
unfolding allocate
allocate_lem a v = elim (ℕ_discrete a.free 0) [
  | yes e ↦ inl (ground arith, e, λ g h. bit_of_none_free a.bitmap g (omega (arith, v.counted)) h)
  | no ne ↦
      let (i, hi, partial, found) =
        scan_finds a.bitmap a.next_word v.fits v.searched (λ z. ne (omega (arith, v.counted))) in
      inr (
        taken_frame (take_bit a.bitmap i),
        taken a (take_bit a.bitmap i),
        ground (arith, found),
        taken-Took a v i hi partial,
        taken-IsValid a v i hi partial,
      )
]
