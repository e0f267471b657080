-- ===== src/Ipc/Laws.antt =====
-- The mailbox keeps its contract, on every branch of its two operations.
use aion_so.Base.{
  ℕ, ◌≤◌, ◌<◌, ◌≡◌, ◌⊎◌, inl, inr, refl, ap, Option, none, some, List, [], ◌∷◌, ◌++◌, length, take,
  drop, ltb, if◌then◌else◌, arith, length-append, length-drop, length-take, Option-cases,
}
use aion_so.Ipc.Contract.{Letter, post, fetch, read}
use aion_so.Ipc.{
  capacity, Delivery, DeliverError, TakeError, Result, ok, err, Mailbox, new, put, deliver,
  take_into,
}

abbrev Fits : Option Delivery → Type 0
Fits none = Unit {0}
Fits (some d) = (0 < d.len) × (d.len ≤ capacity)

pub record IsValid (m : Mailbox) : Type 0 where
  pub whole : length m.bytes ≡ capacity
  pub fits : Fits m.waiting

pub new-IsValid : IsValid new
unfolding new
new-IsValid = record { whole = refl; fits = tt }

-- The letter that a mailbox holds.
abbrev letter_of : List ℕ → Option Delivery → Option Letter
letter_of bytes none = none
letter_of bytes (some d) = some (d.sender, take d.len bytes)

abbrev pub view : Mailbox → Option Letter
view m = letter_of m.bytes m.waiting

pub take-append {ℓ} : {A : Type ℓ} (xs ys : List A) → take (length xs) (xs ++ ys) ≡ xs
take-append [] ys = refl
take-append (x ∷ xs) ys = ap (◌∷◌ x) (take-append xs ys)

length-copy :
    (xs ys : List ℕ) → length xs ≤ length ys → length (xs ++ drop (length xs) ys) ≡ length ys
length-copy xs ys h =
    omega (arith, length-append xs (drop (length xs) ys), length-drop (length xs) ys)

-- `deliver` keeps the mailbox valid and does to the letter it holds what `post` says. It answers
-- `ok` exactly when that letter is the one delivered and the slot was empty before.
pub deliver_refines :
    (m : Mailbox) (sender : ℕ) (message : List ℕ)
    → IsValid m
    → let (r, m') = deliver m sender message in
      IsValid m'
      × (view m' ≡ post capacity (view m) (sender, message))
      × ((r ≡ ok (record { sender = sender; len = length message }))
            × (view m ≡ none)
            × (view m' ≡ some (sender, message))
          ⊎ ((e : DeliverError) × (r ≡ err e) × (m' ≡ m)))
unfolding deliver put
deliver_refines m sender message v = elim (Option-cases m.waiting) [
  | inl e ↦
      ground
        (arith, e, length-copy message m.bytes, take-append message (drop (length message) m.bytes))
  | inr (d, e) ↦ ground (arith, e)
]

-- What a reader with `room` bytes is told: who sent the letter and how long it is, or how long it
-- would have to be, or that there is none.
abbrev pub told : Option Letter → ℕ → Result TakeError
told none room = err TakeError.nothing
told (some (sender, message)) room =
    if ltb room (length message)
    then err (TakeError.too_long (length message))
    else ok (record { sender = sender; len = length message })

-- `take_into` keeps the mailbox valid, empties it exactly when the letter fits the buffer, and
-- writes the letter at the front of the buffer then and nothing otherwise. It answers who sent the
-- letter and its length when it fits, the length that it needs when it does not, and that nothing
-- waits when the slot is empty.
pub take_into_refines :
    (m : Mailbox) (into : List ℕ)
    → IsValid m
    → let (r, m', into') = take_into m into in
      IsValid m'
      × (r ≡ told (view m) (length into))
      × (view m' ≡ fetch (view m) (length into))
      × (into' ≡ read (view m) into)
      × (length into' ≡ length into)
unfolding take_into
take_into_refines m into v = elim (Option-cases m.waiting) [
  | inl e ↦ ground (arith, e)
  | inr (d, e) ↦ ground (arith, e, length-take d.len m.bytes, length-copy (take d.len m.bytes) into)
]

-- A message that was accepted comes out whole, with its sender, into any buffer that is large
-- enough, and leaves the mailbox empty.
pub take_into-deliver :
    (m m' : Mailbox) (sender : ℕ) (message into : List ℕ) (d : Delivery)
    → deliver m sender message ≡ (ok d, m')
    → length message ≤ length into
    → take_into m' into
        ≡ (ok d, record m' { waiting = none }, message ++ drop (length message) into)
      × (d.sender ≡ sender)
      × (d.len ≡ length message)
unfolding deliver put take_into
take_into-deliver m m' sender message into d e h = elim (Option-cases m.waiting) [
  | inl w ↦ ground (arith, w, take-append message (drop (length message) m.bytes))
  | inr (old, w) ↦ ground (arith, w)
]
