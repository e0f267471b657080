-- ===== src/Memory/FrameAllocator/BitLaws.antt =====
-- The bitmap as a function from frame numbers to bits, and the count of its clear bits.
use Prim.Native.Nat.{bit_and, bit_or}
use aion_so.Base.{
  ℕ, zero, suc, ◌+◌, ◌-◌, ◌*◌, ◌/◌, ◌%◌, ◌^◌, ◌≤◌, ◌<◌, ◌≡◌, ◌≢◌, sym, ap, ◌∙◌, inl, inr, Bool,
  true, false, not, ◌&&◌, [], ◌∷◌, arith, if◌then◌else◌, ◌==◌, ==→eq, ==→ne, Bool-cases, length,
  get_or, set, All, length-set, get_or-set_self, get_or-set_ne, word_max, word_size,
}
use aion_so.Base.Bits.{test_bit}
use aion_so.Base.BitCount.{
  count_zeros, count_zeros-le, count_zeros-flip, and-pow, test_bit-set, test_bit-clear, set-lt-word,
  clear-lt-word,
}
use aion_so.Memory.FrameAllocator.BitWords.{Bitmap, bit, write_bit, set_bit, free_words}

-- Every word of the bitmap is a `u64`.
abbrev pub IsWords : Bitmap → Type 0
IsWords = All (λ w. w < word_size)

pub word-lt : (b : Bitmap) (i : ℕ) → IsWords b → get_or b i 0 < word_size
word-lt [] i h = omega arith
word-lt (w ∷ ws) zero h = h.0
word-lt (w ∷ ws) (suc i) h = word-lt ws i h.1

pub set-IsWords : (b : Bitmap) (i v : ℕ) → v < word_size → IsWords b → IsWords (set b i v)
set-IsWords [] i v lt h = tt
set-IsWords (w ∷ ws) zero v lt h = (lt, h.1)
set-IsWords (w ∷ ws) (suc i) v lt h = (h.0, set-IsWords ws i v lt h.1)

pub length-set_bit : (b : Bitmap) (f : ℕ) (v : Bool) → length (set_bit b f v) ≡ length b
unfolding set_bit
length-set_bit b f v = length-set b (f / 64) _

write_bit-lt : (w k : ℕ) (v : Bool) → w < word_size → k < 64 → write_bit w (2 ^ k) v < word_size
unfolding write_bit
write_bit-lt w k true h hk = set-lt-word w k h hk
write_bit-lt w k false h hk = clear-lt-word w k h hk

pub set_bit-IsWords : (b : Bitmap) (f : ℕ) (v : Bool) → IsWords b → IsWords (set_bit b f v)
unfolding set_bit
set_bit-IsWords b f v h =
    set-IsWords b (f / 64) _
      (write_bit-lt (get_or b (f / 64) 0) (f % 64) v (word-lt b (f / 64) h) (omega arith)) h

pub bit_lem : (b : Bitmap) (f : ℕ) → bit b f ≡ test_bit (get_or b (f / 64) 0) (f % 64)
unfolding bit
bit_lem b f = and-pow (get_or b (f / 64) 0) (f % 64)

test_bit-write :
    (w k j : ℕ) (v : Bool)
    → w < word_size
    → k < 64
    → test_bit (write_bit w (2 ^ k) v) j ≡ (if k == j then v else test_bit w j)
unfolding write_bit
test_bit-write w k j true h hk = ground (arith, test_bit-set w k j)
test_bit-write w k j false h hk = ground (arith, test_bit-clear w k j h hk)

pub bit-set :
    (b : Bitmap) (i k v g : ℕ) (value : Bool)
    → i < length b
    → k < 64
    → IsWords b
    → ((j : ℕ) → test_bit v j ≡ (if k == j then value else test_bit (get_or b i 0) j))
    → bit (set b i v) g ≡ (if i * 64 + k == g then value else bit b g)
bit-set b i k v g value hi hk h c = elim (Bool-cases (i == g / 64)) [
  | inl same ↦
      let e : i ≡ g / 64 = ==→eq _ _ same in
      ground (
        arith,
        bit_lem (set b i v) g,
        bit_lem b g,
        get_or-set_self b i v 0 hi,
        c (g % 64),
        ap (λ t. get_or (set b i v) t 0) e,
        ap (λ t. get_or b t 0) e,
      )
  | inr other ↦
      let ne : i ≢ g / 64 = ==→ne _ _ other in
      ground (arith, bit_lem (set b i v) g, bit_lem b g, get_or-set_ne b i (g / 64) v 0 ne)
]

-- `set_bit` changes the bit of its frame and no other.
pub bit-set_bit :
    (b : Bitmap) (f g : ℕ) (v : Bool)
    → f < length b * 64
    → IsWords b
    → bit (set_bit b f v) g ≡ (if f == g then v else bit b g)
unfolding set_bit
bit-set_bit b f g v hf h =
    let e : f / 64 * 64 + f % 64 ≡ f = omega arith in
    bit-set b (f / 64) (f % 64) _ g v (omega arith) (omega arith) h
      (λ j. test_bit-write (get_or b (f / 64) 0) (f % 64) j v (word-lt b (f / 64) h) (omega arith))
    ∙ ap (λ t. if t == g then v else bit b g) e

-- A changed word changes the sum by its own change.
free_words-set :
    (b : Bitmap) (i v : ℕ)
    → i < length b
    → free_words (set b i v) + count_zeros 64 (get_or b i 0) ≡ free_words b + count_zeros 64 v
unfolding free_words
free_words-set [] i v h = absurd (omega arith)
free_words-set (w ∷ ws) zero v h = omega arith
free_words-set (w ∷ ws) (suc i) v h = omega (arith, free_words-set ws i v (omega arith))

-- Setting a clear bit takes one from the count, and clearing a set bit gives it back.
pub free_words-set_word :
    (b : Bitmap) (i k : ℕ)
    → i < length b
    → k < 64
    → test_bit (get_or b i 0) k ≡ false
    → free_words (set b i (bit_or (get_or b i 0) (2 ^ k))) + 1 ≡ free_words b
free_words-set_word b i k hi hk off = omega (
  arith,
  free_words-set b i (bit_or (get_or b i 0) (2 ^ k)) hi,
  count_zeros-flip 64 k (get_or b i 0) (bit_or (get_or b i 0) (2 ^ k)) hk
      (λ j. test_bit-set (get_or b i 0) k j) off,
)

pub free_words-clear_bit :
    (b : Bitmap) (f : ℕ)
    → f < length b * 64
    → IsWords b
    → bit b f ≡ true
    → free_words (set_bit b f false) ≡ free_words b + 1
unfolding set_bit write_bit
free_words-clear_bit b f hf h on =
    let w : ℕ = get_or b (f / 64) 0 in
    let k : ℕ = f % 64 in
    let v : ℕ = bit_and w (word_max - 2 ^ k) in
    let set' : test_bit w k ≡ true = sym (bit_lem b f) ∙ on in
    let cleared : (j : ℕ) → test_bit v j ≡ (not (k == j) && test_bit w j) =
      λ j. test_bit-clear w k j (word-lt b (f / 64) h) (omega arith) in
    omega (
      arith,
      free_words-set b (f / 64) v (omega arith),
      count_zeros-flip 64 k v w (omega arith)
          (λ j. ground (arith, cleared j, set', ap (test_bit w) {x = k} {y = j}))
          (ground (arith, cleared k)),
    )

pub free_words-le : (b : Bitmap) → free_words b ≤ length b * 64
unfolding free_words
free_words-le [] = omega arith
free_words-le (w ∷ ws) = omega (arith, count_zeros-le 64 w, free_words-le ws)
