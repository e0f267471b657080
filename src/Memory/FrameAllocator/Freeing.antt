-- ===== src/Memory/FrameAllocator/Freeing.antt =====
-- Giving a frame back: every branch of `deallocate_as`.
use aion_so.Base.{
  ℕ, ◌+◌, ◌*◌, ◌<◌, ◌≡◌, ◌≢◌, ◌⊎◌, refl, sym, ap, ◌∙◌, true, false, not, ◌&&◌, arith, ◌==◌, ==→eq,
  length, inl, inr, some, none, Bool-cases, word_size,
}
use aion_so.Hal.Frame.{PhysFrame, number}
use aion_so.Memory.FrameAllocator.BitWords.{bit, set_bit}
use aion_so.Memory.FrameAllocator.BitLaws.{
  length-set_bit, set_bit-IsWords, bit-set_bit, free_words-clear_bit, free_words-le,
}
use aion_so.Memory.FrameAllocator.Purposes.{FramePurpose}
use aion_so.Memory.FrameAllocator.Invariant.{IsValid}
use aion_so.Memory.FrameAllocator.Allocate.{manages_number-congr}
use aion_so.Memory.FrameAllocator.Release.{deallocate_unchecked, deallocate_as}
use aion_so.Memory.FrameAllocator.Labels.{
  SameBut, set_purpose-SameBut, SameBut-IsValid, purpose_of-set_purpose_ne, mislabelled_cases,
}
use aion_so.Memory.FrameAllocator.{
  Allocator, not_managed, not_allocated, wrong_purpose, ok, err, manages, manages_number,
  covered_frames, purpose_of, set_purpose,
}

-- A step that frees the frame `f` and nothing else.
pub record Freed (a : Allocator) (f : PhysFrame) (a' : Allocator) : Type 0 where
  pub managed : manages a f ≡ true
  pub was_held : bit a.bitmap (number f) ≡ true
  pub only : (g : ℕ) → bit a'.bitmap g ≡ (not (number f == g) && bit a.bitmap g)
  pub one_more : a'.free ≡ a.free + 1
  pub others : (h : PhysFrame) → number f ≢ number h → purpose_of a' h ≡ purpose_of a h
  pub valid : IsValid a'

manages-inside :
    (a : Allocator) (f : PhysFrame) → manages a f ≡ true → number f < length a.bitmap * 64
unfolding manages manages_number covered_frames
manages-inside a f m = ground arith

-- The allocator with the bit cleared, before its label and its count.
cleared : Allocator → ℕ → Allocator
cleared a n = record a { bitmap = set_bit a.bitmap n false; free = a.free + 1 }

cleared-IsValid :
    (a : Allocator) (n : ℕ)
    → IsValid a
    → n < length a.bitmap * 64
    → bit a.bitmap n ≡ true
    → manages_number a n ≡ true
    → IsValid (cleared a n)
unfolding cleared
cleared-IsValid a n v h on m =
    let size : length (set_bit a.bitmap n false) ≡ length a.bitmap =
      length-set_bit a.bitmap n false in
    record {
      words = set_bit-IsWords a.bitmap n false v.words;
      fits = omega (arith, size, v.fits);
      counted = omega (arith, v.counted, free_words-clear_bit a.bitmap n h v.words on);
      managed = λ g lt off.
          manages_number-congr (cleared a n) a g size refl refl ∙ elim (Bool-cases (n == g)) [
            | inl same ↦ ap (manages_number a) (sym (==→eq n g same)) ∙ m
            | inr other ↦
                v.managed g (omega (arith, size))
                  (ground (arith, bit-set_bit a.bitmap n g false h v.words))
          ];
      searched = omega (arith, size, v.searched);
    }

unchecked-ok :
    (a : Allocator) (f : PhysFrame)
    → a.free + 1 < word_size
    → manages a f ≡ true
    → bit a.bitmap (number f) ≡ true
    → deallocate_unchecked a f ≡ (ok, set_purpose (cleared a (number f)) f none)
unfolding deallocate_unchecked cleared
unchecked-ok a f h m on = ground arith

unchecked-refused :
    (a : Allocator) (f : PhysFrame)
    → manages a f ≡ false
    → deallocate_unchecked a f ≡ (err not_managed, a)
unfolding deallocate_unchecked
unchecked-refused a f m = ground arith

unchecked-free :
    (a : Allocator) (f : PhysFrame)
    → manages a f ≡ true
    → bit a.bitmap (number f) ≡ false
    → deallocate_unchecked a f ≡ (err not_allocated, a)
unfolding deallocate_unchecked
unchecked-free a f m off = ground arith

purpose_of-cleared :
    (a : Allocator) (n : ℕ) (f : PhysFrame) → purpose_of (cleared a n) f ≡ purpose_of a f
unfolding purpose_of cleared
purpose_of-cleared a n f = refl

unchecked-Freed :
    (a : Allocator) (f : PhysFrame)
    → IsValid a
    → manages a f ≡ true
    → bit a.bitmap (number f) ≡ true
    → Freed a f (set_purpose (cleared a (number f)) f none)
unfolding cleared manages
unchecked-Freed a f v m on =
    let n : ℕ = number f in
    let h : n < length a.bitmap * 64 = manages-inside a f m in
    let same : SameBut (cleared a n) (set_purpose (cleared a n) f none) =
      set_purpose-SameBut (cleared a n) f none in
    record {
      managed = m;
      was_held = on;
      only = λ g.
          ground (arith, ap (λ b. bit b g) same.bitmap, bit-set_bit a.bitmap n g false h v.words);
      one_more = same.free;
      others =
          λ k ne. purpose_of-set_purpose_ne (cleared a n) f k none ne ∙ purpose_of-cleared a n k;
      valid = SameBut-IsValid (cleared a n) _ same (cleared-IsValid a n v h on m);
    }

-- The answers of `deallocate_as`.
abbrev pub Answer : Allocator → PhysFrame → FramePurpose → Type 0
Answer a f p =
    ((a.purposes ≢ none)
      × (purpose_of a f ≢ some p)
      × (deallocate_as a f p ≡ (err (wrong_purpose p (purpose_of a f)), a)))
    ⊎ ((a.purposes ≡ none) ⊎ (purpose_of a f ≡ some p))
      × ((manages a f ≡ false) × (deallocate_as a f p ≡ (err not_managed, a))
          ⊎ (manages a f ≡ true)
            × (bit a.bitmap (number f) ≡ false)
            × (deallocate_as a f p ≡ (err not_allocated, a))
          ⊎ ((a' : Allocator) × (deallocate_as a f p ≡ (ok, a')) × Freed a f a'))

free-small : (a : Allocator) → IsValid a → a.free + 1 < word_size
free-small a v = omega (arith, v.counted, v.fits, free_words-le a.bitmap)

-- What `deallocate_as` answers on a valid allocator, on every branch: a frame recorded for another
-- purpose, one that `manages` refuses and one that is free are refused in that order and nothing
-- changes; any other frame is given back: its bit is cleared and no other, the count goes up by
-- one, no other frame's purpose changes, and the allocator stays valid.
pub deallocate_as_lem :
    (a : Allocator) (f : PhysFrame) (p : FramePurpose) → IsValid a → Answer a f p
unfolding deallocate_as
deallocate_as_lem a f p v = elim (mislabelled_cases a p (purpose_of a f)) [
  | inl (wrong, recorded, other) ↦ inl (recorded, other, ground arith)
  | inr (right, agreed) ↦ inr (
    agreed,
    elim (Bool-cases (manages a f)) [
      | inr refused ↦ inl (refused, ground (arith, unchecked-refused a f refused))
      | inl m ↦ inr (elim (Bool-cases (bit a.bitmap (number f))) [
        | inr off ↦ inl (m, off, ground (arith, unchecked-free a f m off))
        | inl on ↦
            inr (
              _,
              ground (arith, unchecked-ok a f (free-small a v) m on),
              unchecked-Freed a f v m on,
            )
      ])
    ],
  )
]
