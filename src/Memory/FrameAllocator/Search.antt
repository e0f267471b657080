-- ===== src/Memory/FrameAllocator/Search.antt =====
-- How `allocate` finds a frame: the next-fit scan stops at a word with a clear bit, and comes back
-- empty only when no bit is clear.
use native.Mathlib.Nat.{mod-lt, mod-eq_of_lt, mod-eq-sub-mod}
use native.Mathlib.Decide.{dec_lt}
use aion_so.Base.{
  ℕ, zero, suc, ◌+◌, ◌-◌, ◌*◌, ◌/◌, ◌%◌, ◌≤◌, ◌<◌, ◌≡◌, ◌≢◌, ◌⊎◌, refl, sym, ap, ◌∙◌, true, false,
  [], ◌∷◌, arith, ◌==◌, ==→eq, ==→ne, length, get_or, word_max, inl, inr, Bool-cases, add64, Option,
  some, none,
}
use aion_so.Base.Bits.{test_bit}
use aion_so.Base.BitCount.{count_zeros}
use aion_so.Memory.FrameAllocator.BitWords.{Bitmap, bit, free_words, Found, take_bit, scan}
use aion_so.Memory.FrameAllocator.BitLaws.{bit_lem}
use aion_so.Memory.FrameAllocator.Invariant.{Fits}

abbrev AllFull : Bitmap → ℕ → ℕ → ℕ → Type 0
AllFull b next from to = (o : ℕ) → from ≤ o → o < to → get_or b ((next + o) % length b) 0 ≡ word_max

abbrev Scanned : Bitmap → ℕ → ℕ → ℕ → Option Found → Type 0
Scanned b next from to r =
    ((r ≡ none) × AllFull b next from to)
    ⊎ ((i : ℕ) × (i < length b) × (get_or b i 0 ≢ word_max) × (r ≡ some (take_bit b i)))

scan-Scanned :
    (n : ℕ) (b : Bitmap) (next offset : ℕ)
    → Fits (length b)
    → 0 < length b
    → next ≤ length b
    → offset + n ≤ length b
    → Scanned b next offset (offset + n) (scan n b next offset)
unfolding scan
scan-Scanned zero b next offset h pos hn ho = inl (refl, λ o p q. absurd (omega arith))
scan-Scanned (suc n) b next offset h pos hn ho =
    let no_wrap : add64 next offset ≡ next + offset = omega arith in
    rw no_wrap (elim (Bool-cases (get_or b ((next + offset) % length b) 0 == word_max)) [
      | inl full ↦ rw full (elim (scan-Scanned n b next (offset + 1) h pos hn (omega arith)) [
        | inl (e, rest) ↦ inl (
          e,
          λ o p q. elim (Bool-cases (o == offset)) [
            | inl same ↦ ground (
              arith,
              ==→eq _ _ full,
              ap (λ t. get_or b ((next + t) % length b) 0) (==→eq o offset same),
            )
            | inr other ↦ rest o (omega (arith, ==→ne o offset other)) (omega arith)
          ],
        )
        | inr found ↦ inr found
      ])
      | inr partial ↦
          rw partial
            (inr ((next + offset) % length b, mod-lt (next + offset) pos, ==→ne _ _ partial, refl))
    ])

rotation : (n next i : ℕ) → i < n → next ≤ n → (o : ℕ) × (o < n) × ((next + o) % n ≡ i)
rotation n next i hi hn = elim (dec_lt i next) [
  | yes before ↦ (
    i + n - next,
    omega arith,
    (let e : next + (i + n - next) ≡ i + n = omega arith in
        rw e (
          omega (
            arith,
            mod-eq-sub-mod {n = i + n} {m = n} (omega arith),
            mod-eq_of_lt hi,
            (let f : i + n - n ≡ i = omega arith in ap (λ t. t % n) f),
          ))),
  )
  | no after ↦ (
    i - next,
    omega arith,
    (let e : next + (i - next) ≡ i = omega arith in rw e (mod-eq_of_lt hi)),
  )
]

full_word : count_zeros 64 word_max ≡ 0
unfolding count_zeros
full_word = refl

free_words-full :
    (b : Bitmap) → ((i : ℕ) → i < length b → get_or b i 0 ≡ word_max) → free_words b ≡ 0
unfolding free_words
free_words-full [] full = refl
free_words-full (w ∷ ws) full =
    let e : w ≡ word_max = full 0 (omega arith) in
    omega (
      arith,
      ap (count_zeros 64) e,
      full_word,
      free_words-full ws (λ i h. full (suc i) (omega arith)),
    )

free_words-empty : (b : Bitmap) → length b ≡ 0 → free_words b ≡ 0
free_words-empty [] h = free_words-full [] (λ i lt. absurd (omega arith))
free_words-empty (w ∷ ws) h = absurd (omega arith)

-- The scan from `next_word` finds a word that is not full whenever a bit is clear.
pub scan_finds :
    (b : Bitmap) (next : ℕ)
    → Fits (length b)
    → next ≤ length b
    → free_words b ≢ 0
    → (i : ℕ) × (i < length b)
      × (get_or b i 0 ≢ word_max)
      × (scan (length b) b next 0 ≡ some (take_bit b i))
scan_finds b next h hn some_free =
    elim (scan-Scanned (length b) b next 0 h some_words hn (omega arith)) [
      | inl (_, full) ↦ absurd (
          some_free (
            free_words-full b λ i hi.
              let (o, lt, e) = rotation (length b) next i hi hn in
              ap (λ t. get_or b t 0) (sym e) ∙ full o (omega arith) (omega arith)))
      | inr found ↦ found
    ]
  where
    some_words : 0 < length b
    some_words = elim (dec_lt 0 (length b)) [
      | yes p ↦ p
      | no q ↦ absurd (some_free (free_words-empty b (omega arith)))
    ]

-- With no clear bit left to count, every bit is set.
count_zeros_pos : (n w k : ℕ) → k < n → test_bit w k ≡ false → 0 < count_zeros n w
unfolding count_zeros test_bit
count_zeros_pos zero w k h off = absurd (omega arith)
count_zeros_pos (suc n) w zero h off = ground arith
count_zeros_pos (suc n) w (suc k) h off =
    omega (arith, count_zeros_pos n (w / 2) k (omega arith) off)

free_words_pos :
    (b : Bitmap) (i k : ℕ)
    → i < length b
    → k < 64
    → test_bit (get_or b i 0) k ≡ false
    → 0 < free_words b
unfolding free_words
free_words_pos [] i k hi hk off = absurd (omega arith)
free_words_pos (w ∷ ws) zero k hi hk off = omega (arith, count_zeros_pos 64 w k hk off)
free_words_pos (w ∷ ws) (suc i) k hi hk off =
    omega (arith, free_words_pos ws i k (omega arith) hk off)

pub bit_of_none_free : (b : Bitmap) (g : ℕ) → free_words b ≡ 0 → g < length b * 64 → bit b g ≡ true
bit_of_none_free b g none_free h = elim (Bool-cases (bit b g)) [
  | inl on ↦ on
  | inr off ↦ absurd (
      omega (
        arith,
        free_words_pos b (g / 64) (g % 64) (omega arith) (omega arith) (sym (bit_lem b g) ∙ off),
      ))
]
