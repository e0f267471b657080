-- ===== src/Memory/FrameAllocator/BitWords.antt =====
-- The bitmap itself: 64 frames to a word.
use Prim.Native.Nat.{bit_and, bit_or}
use aion_so.Base.{
  ℕ, zero, suc, ◌+◌, ◌-◌, ◌/◌, ◌%◌, ◌^◌, Bool, true, false, not, Option, none, some, List, [], ◌∷◌,
  if◌then◌else◌, ◌==◌, length, get_or, set, replicate, word_max, add64,
}
use aion_so.Base.BitCount.{count_zeros, trailing_zeros}

abbrev pub Bitmap : Type 0
Bitmap = List ℕ

-- `storage.fill(u64::MAX)`
abbrev pub all_ones : ℕ → Bitmap
all_ones words = replicate words word_max

-- Callers pass frames below `covered_frames`, which bounds the index.
unfoldable pub bit : Bitmap → ℕ → Bool
bit b frame = not (bit_and (get_or b (frame / 64) 0) (2 ^ (frame % 64)) == 0)

-- `*word |= mask` and `*word &= !mask`
unfoldable pub write_bit : ℕ → ℕ → Bool → ℕ
write_bit word mask true = bit_or word mask
write_bit word mask false = bit_and word (word_max - mask)

unfoldable pub set_bit : Bitmap → ℕ → Bool → Bitmap
unfolding write_bit
set_bit b frame value =
    set b (frame / 64) (write_bit (get_or b (frame / 64) 0) (2 ^ (frame % 64)) value)

-- `bitmap.iter().map(count_zeros).sum()`
unfoldable pub free_words : Bitmap → ℕ
free_words [] = 0
free_words (w ∷ ws) = count_zeros 64 w + free_words ws

-- Where the search of `allocate` stopped: the word, the clear bit in it, and the bitmap with that
-- bit set.
pub record Found : Type 0 where
  pub index : ℕ
  pub position : ℕ
  pub after : Bitmap

abbrev pub take_bit : Bitmap → ℕ → Found
take_bit b index = record {
  index = index;
  position = trailing_zeros 64 (word_max - get_or b index 0);
  after =
      set b index (bit_or (get_or b index 0) (2 ^ trailing_zeros 64 (word_max - get_or b index 0)));
}

-- `for offset in 0..words`, by the rounds left.
unfoldable pub scan : ℕ → Bitmap → ℕ → ℕ → Option Found
scan zero b next_word offset = none
scan (suc n) b next_word offset =
    let rest = scan n b next_word (offset + 1) in
    let index = add64 next_word offset % length b in
    if get_or b index 0 == word_max then rest else some (take_bit b index)
