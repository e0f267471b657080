-- ===== src/Scheduler/Messages/Laws.antt =====
-- Sending: who is woken, and what stays as it was.
use aion_so.Base.{
  ℕ, zero, suc, ◌<◌, ◌≡◌, ◌≢◌, ◌⊎◌, inl, inr, refl, ap, true, false, Option, none, some, List, [],
  ◌∷◌, length, set, arith, get_elem?-set_self, get_elem?-set_ne, Option-cases,
}
use aion_so.Ipc.{Delivery, DeliverError, TakeError, Mailbox}
use aion_so.Ipc
use aion_so.Process.OpenFiles.{slot_at}
use aion_so.Scheduler.States.{State, is_state, woken}
use aion_so.Scheduler.{Slot, Scheduler, unblock, move_to}
use aion_so.Scheduler.Messages.{
  no_such_process, SendResult, sent, refused, deliver, delivered, send_error,
}

pub slot_at-lt {ℓ} :
    {A : Type ℓ} (t : List (Option A)) (i : ℕ) (a : A) → slot_at t i ≡ some a → i < length t
unfolding slot_at
slot_at-lt [] i a h = absurd (ground arith)
slot_at-lt (x ∷ t) zero a h = omega arith
slot_at-lt (x ∷ t) (suc i) a h = omega (arith, slot_at-lt t i a h)

pub slot_at-set {ℓ} :
    {A : Type ℓ} (t : List (Option A)) (i : ℕ) (o : Option A)
    → i < length t
    → slot_at (set t i o) i ≡ o
unfolding slot_at
slot_at-set t i o h = ground (arith, get_elem?-set_self t i o h)

pub slot_at-set_ne {ℓ} :
    {A : Type ℓ} (t : List (Option A)) (i j : ℕ) (o : Option A)
    → i ≢ j
    → slot_at (set t i o) j ≡ slot_at t j
unfolding slot_at
slot_at-set_ne t i j o ne = ground (arith, get_elem?-set_ne t i j o ne)

set-set {ℓ} : {A : Type ℓ} (t : List A) (i : ℕ) (a b : A) → set (set t i a) i b ≡ set t i b
set-set [] i a b = refl
set-set (x ∷ t) zero a b = refl
set-set (x ∷ t) (suc i) a b = ap (◌∷◌ x) (set-set t i a b)

-- What a message that arrives makes of the state of its receiver.
abbrev pub after_message : State → State
after_message State.blocked = State.runnable
after_message State.new = State.new
after_message State.runnable = State.runnable
after_message State.dead = State.dead

woken_cases :
    (t : State) → ((woken t ≡ none) × (after_message t ≡ t)) ⊎ (woken t ≡ some (after_message t))
unfolding woken
woken_cases State.new = inl (refl, refl)
woken_cases State.runnable = inl (refl, refl)
woken_cases State.blocked = inr refl
woken_cases State.dead = inl (refl, refl)

-- The receiver's slot once the message is in its mailbox.
abbrev pub received : Slot → Mailbox → Slot
received slot m = record slot { mailbox = m; state = after_message slot.state }

abbrev mailed : Scheduler → ℕ → Slot → Mailbox → Scheduler
mailed s to slot m = record s { slots = set s.slots to (some (record slot { mailbox = m })) }

unblock-mailed :
    (s : Scheduler) (to : ℕ) (slot : Slot) (m : Mailbox)
    → slot_at s.slots to ≡ some slot
    → (unblock (mailed s to slot m) to).0
      ≡ record s { slots = set s.slots to (some (received slot m)) }
unfolding unblock
unblock-mailed s to slot m at =
    let there : slot_at (set s.slots to (some (record slot { mailbox = m }))) to
        ≡ some (record slot { mailbox = m }) =
      slot_at-set s.slots to _ (slot_at-lt s.slots to slot at) in
    elim (woken_cases slot.state) [
      | inl (asleep, same) ↦ rw (there, move_to) (rw (asleep, move_to) (rw same refl))
      | inr wakes ↦
          rw (there, move_to)
            (rw (wakes, move_to)
              (ap (λ (l : List (Option Slot)). record s { slots = l }) (set-set s.slots to _ _)))
    ]

-- The three answers of `deliver`: nobody there or what was there has ended; refused by the mailbox,
-- for the reason that it gave; or sent.
pub data Answer (s : Scheduler) (to sender : ℕ) (message : List ℕ) (r : SendResult × Scheduler)
    : Type 0 where
  nobody :
      (slot_at s.slots to ≡ none)
        ⊎ ((slot : Slot) × (slot_at s.slots to ≡ some slot) × (slot.state ≡ State.dead))
      → r ≡ (refused no_such_process, s)
      → Answer s to sender message r
  turned_down :
      (slot : Slot) (e : DeliverError)
      → slot_at s.slots to ≡ some slot
      → slot.state ≢ State.dead
      → (Ipc.deliver slot.mailbox sender message).0 ≡ Ipc.Result.err e
      → r ≡ (refused (send_error e), s)
      → Answer s to sender message r
  arrived :
      (slot : Slot) (d : Delivery) (m : Mailbox)
      → slot_at s.slots to ≡ some slot
      → slot.state ≢ State.dead
      → Ipc.deliver slot.mailbox sender message ≡ (Ipc.Result.ok d, m)
      → r ≡ (sent d, record s { slots = set s.slots to (some (received slot m)) })
      → Answer s to sender message r

delivered-Answer :
    (s : Scheduler) (to sender : ℕ) (message : List ℕ) (slot : Slot)
    (answer : Ipc.Result DeliverError × Mailbox)
    → slot_at s.slots to ≡ some slot
    → slot.state ≢ State.dead
    → Ipc.deliver slot.mailbox sender message ≡ answer
    → Answer s to sender message (delivered s to slot answer)
unfolding delivered
delivered-Answer s to sender message slot (Ipc.Result.err e, m) at alive h =
    Answer.turned_down slot e at alive (ap (λ (p : Ipc.Result DeliverError × Mailbox). p.0) h) refl
delivered-Answer s to sender message slot (Ipc.Result.ok d, m) at alive h =
    Answer.arrived slot d m at alive h
      (ap (λ (t : Scheduler). (sent d, t)) (unblock-mailed s to slot m at))

dead_cases :
    (t : State)
    → ((is_state t State.dead ≡ true) × (t ≡ State.dead))
      ⊎ ((is_state t State.dead ≡ false) × (t ≢ State.dead))
dead_cases State.new = ground arith
dead_cases State.runnable = ground arith
dead_cases State.blocked = ground arith
dead_cases State.dead = ground arith

deliver-none :
    (s : Scheduler) (to sender : ℕ) (message : List ℕ)
    → slot_at s.slots to ≡ none
    → deliver s to sender message ≡ (refused no_such_process, s)
unfolding deliver
deliver-none s to sender message e = rw (e, deliver)

deliver-dead :
    (s : Scheduler) (to sender : ℕ) (message : List ℕ) (slot : Slot)
    → slot_at s.slots to ≡ some slot
    → is_state slot.state State.dead ≡ true
    → deliver s to sender message ≡ (refused no_such_process, s)
unfolding deliver
deliver-dead s to sender message slot e dead = rw (e, deliver) (rw dead refl)

deliver-alive :
    (s : Scheduler) (to sender : ℕ) (message : List ℕ) (slot : Slot)
    → slot_at s.slots to ≡ some slot
    → is_state slot.state State.dead ≡ false
    → deliver s to sender message ≡ delivered s to slot (Ipc.deliver slot.mailbox sender message)
unfolding deliver
deliver-alive s to sender message slot e alive = rw (e, deliver) (rw alive refl)

-- `deliver` refuses a slot with nobody in it or whose process has ended, passes on what the mailbox
-- refuses, and changes nothing in either case. A message that arrives changes the receiver's slot
-- and no other: the mailbox has it, and the process is runnable if it was waiting and in its old
-- state otherwise.
pub deliver_lem :
    (s : Scheduler) (to sender : ℕ) (message : List ℕ)
    → Answer s to sender message (deliver s to sender message)
deliver_lem s to sender message = elim (Option-cases (slot_at s.slots to)) [
  | inl e ↦ Answer.nobody (inl e) (deliver-none s to sender message e)
  | inr (slot, e) ↦ elim (dead_cases slot.state) [
    | inl (t, dead) ↦
        Answer.nobody (inr (slot, e, dead)) (deliver-dead s to sender message slot e t)
    | inr (f, alive) ↦ rw (deliver-alive s to sender message slot e f) (
        delivered-Answer s to sender message slot (Ipc.deliver slot.mailbox sender message) e alive
          refl)
  ]
]
