-- ===== src/Keyboard/Reading.antt =====
-- arch/x86_64/src/keyboard.rs: reading a key ends, and takes scancodes off the front of the queue.
use aion_so.Base.{
  ℕ, zero, suc, ◌+◌, ◌<◌, ◌≡◌, refl, ap, ◌∙◌, Option, none, some, List, [], ◌∷◌, ◌++◌, length,
  arith, inl, inr, ◌⊎◌, Option-cases,
}
use aion_so.Keyboard.{ScancodeQueue, Decoder, ConsoleKey, pop, feed, read_key_from}
use aion_so.Keyboard.Fifo.{Represents, Popped, queue_lem}

-- The decoder after the scancodes, none of which completes a key.
pub data Silent : Decoder → List ℕ → Decoder → Type 0 where
  none_left : {d : Decoder} → Silent d [] d
  one_more :
      {d e : Decoder} {x : ℕ} {xs : List ℕ}
      → (feed d x).1 ≡ none
      → Silent (feed d x).0 xs e
      → Silent d (x ∷ xs) e

abbrev ReadResult : Type 0
ReadResult = (Decoder × ScancodeQueue) × Option ConsoleKey

-- Either all that waited is read without a key, or a key is completed by `last`.
abbrev pub Answer : Decoder → ℕ → List ℕ → ReadResult → Type 0
Answer d p w r =
    ((r.1 ≡ none) × Silent d w r.0.0 × Represents r.0.1 (p + length w) [])
    ⊎ ((silent : List ℕ) × (last : ℕ) × (left : List ℕ) × (e : Decoder) × (k : ConsoleKey) × (w
          ≡ silent ++ last ∷ left)
        × Silent d silent e
        × (feed e last ≡ (r.0.0, some k))
        × (r.1 ≡ some k)
        × Represents r.0.1 (p + length silent + 1) left)

longer :
    (d : Decoder) (p x : ℕ) (w : List ℕ) (r : ReadResult)
    → (feed d x).1 ≡ none
    → Answer (feed d x).0 (suc p) w r
    → Answer d p (x ∷ w) r
longer d p x w r quiet (inl (e, silent, rep)) =
    let count : suc p + length w ≡ p + length (x ∷ w) = omega arith in
    inl (e, Silent.one_more quiet silent, rw (← count) rep)
longer d p x w r quiet (inr (s, last, left, e, k, split, silent, fed, key, rep)) =
    let count : suc p + length s + 1 ≡ p + length (x ∷ s) + 1 = omega arith in
    inr (
      x ∷ s,
      last,
      left,
      e,
      k,
      ap (λ l. x ∷ l) split,
      Silent.one_more quiet silent,
      fed,
      key,
      rw (← count) rep,
    )

-- One round, by what `pop` and `feed` answer.
reads_key :
    (n : ℕ) (d : Decoder) (q : ScancodeQueue) (x : ℕ) (k : ConsoleKey)
    → (pop q).1 ≡ some x
    → (feed d x).1 ≡ some k
    → read_key_from (suc n) d q ≡ some (((feed d x).0, (pop q).0), some k)
unfolding read_key_from
reads_key n d q x k e f = ground (arith, e, f)

reads_on :
    (n : ℕ) (d : Decoder) (q : ScancodeQueue) (x : ℕ)
    → (pop q).1 ≡ some x
    → (feed d x).1 ≡ none
    → read_key_from (suc n) d q ≡ read_key_from n (feed d x).0 (pop q).0
unfolding read_key_from
reads_on n d q x e f = ground (arith, e, f)

reads_none :
    (n : ℕ) (d : Decoder) (q : ScancodeQueue)
    → pop q ≡ (q, none)
    → read_key_from (suc n) d q ≡ some ((d, q), none)
unfolding read_key_from
reads_none n d q e = ground (arith, e)

-- `read_key_from` ends on every queue, with one round more than there are scancodes waiting: it reads
-- scancodes from the front, none of which completes a key, up to one that does, and answers that key
-- and leaves the rest in the queue; or it empties the queue and answers `none`.
pub read_key_from_lem :
    (rounds : ℕ) (d : Decoder) (q : ScancodeQueue) (p : ℕ) (w : List ℕ)
    → Represents q p w
    → length w < rounds
    → (r : ReadResult) × (read_key_from rounds d q ≡ some r) × Answer d p w r
unfolding read_key_from
read_key_from_lem zero d q p w rep h = absurd (omega arith)
read_key_from_lem (suc n) d q p [] rep h =
    let e : Popped q p [] (pop q) = (queue_lem q p [] 0 rep).1 in
    let none_more : p + 0 ≡ p = omega arith in
    (((d, q), none), reads_none n d q e, inl (refl, Silent.none_left, rw none_more rep))
read_key_from_lem (suc n) d q p (x ∷ w) rep h =
    let (e, after) = (queue_lem q p (x ∷ w) 0 rep).1 in
    elim (Option-cases (feed d x).1) [
      | inr (k, done) ↦
          let one : p + 0 + 1 ≡ suc p = omega arith in
          (
            (((feed d x).0, (pop q).0), some k),
            reads_key n d q x k e done,
            inr (
              [],
              x,
              w,
              d,
              k,
              refl,
              Silent.none_left,
              ap (λ o. ((feed d x).0, o)) done,
              refl,
              rw one after,
            ),
          )
      | inl quiet ↦
          let (r, read, answer) =
            read_key_from_lem n (feed d x).0 (pop q).0 (suc p) w after (omega arith) in
          (r, reads_on n d q x e quiet ∙ read, longer d p x w r quiet answer)
    ]
