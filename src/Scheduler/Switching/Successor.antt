-- ===== src/Scheduler/Switching/Successor.antt =====
-- kernel/src/scheduler.rs: whom `next_after` names, seen from the slots.
use aion_so.Base.{
  ℕ, zero, suc, ◌<◌, ◌≡◌, ◌≢◌, ◌⊎◌, inl, inr, refl, sym, ap, ◌∙◌, true, false, Option, none, some,
  List, [], ◌∷◌, length, arith, Bool-cases, some_inj,
}
use mathlib.Core.Bool.{false≢true}
use aion_so.Process.OpenFiles.{slot_at}
use aion_so.Scheduler.States.{can_run, runs_at}
use aion_so.Scheduler.Rotation.{next_runnable_lem}
use aion_so.Scheduler.{Slot, Scheduler, states, states_of, next_after}

length-states_of : (l : List (Option Slot)) → length (states_of l) ≡ length l
unfolding states_of
length-states_of [] = refl
length-states_of (x ∷ l) = ap suc (length-states_of l)

-- A place where somebody can run holds a process.
runs_at-slot :
    (l : List (Option Slot)) (k : ℕ)
    → runs_at (states_of l) k ≡ true
    → (slot : Slot) × (slot_at l k ≡ some slot) × (can_run slot.state ≡ true)
unfolding runs_at states_of
runs_at-slot [] k h = absurd (false≢true h)
runs_at-slot (none ∷ l) zero h = absurd (false≢true h)
runs_at-slot (some slot ∷ l) zero h = (slot, refl, h)
runs_at-slot (x ∷ l) (suc k) h = runs_at-slot l k h

-- Who is next, seen from the slots.
pub next_after-cases :
    (s : Scheduler)
    → s.current < length s.slots
    → ((next_after s s.current ≡ none)
        × ((j : ℕ) → j < length s.slots → runs_at (states s) j ≡ false))
      ⊎ ((k : ℕ) × (next_after s s.current ≡ some k)
          × (k < length s.slots)
          × ((slot : Slot) × (slot_at s.slots k ≡ some slot) × (can_run slot.state ≡ true)))
unfolding next_after
next_after-cases s h =
    let len : length (states_of s.slots) ≡ length s.slots = length-states_of s.slots in
    elim (next_runnable_lem (states_of s.slots) s.current (omega arith)) [
      | inl (e, nobody) ↦ inl (e, λ j lt. nobody j (omega arith))
      | inr (k, e, lt, runs, _) ↦ inr (k, e, omega arith, runs_at-slot s.slots k runs)
    ]

-- Only the running process can have a turn.
abbrev pub NobodyElse : Scheduler → Type 0
NobodyElse s = (j : ℕ) → j < length s.slots → j ≢ s.current → runs_at (states s) j ≡ false

-- Whoever comes after itself runs, and is the only one.
pub next_after_itself :
    (s : Scheduler)
    → s.current < length s.slots
    → next_after s s.current ≡ some s.current
    → (runs_at (states s) s.current ≡ true) × NobodyElse s
unfolding next_after
next_after_itself s h e =
    let len : length (states_of s.slots) ≡ length s.slots = length-states_of s.slots in
    elim (next_runnable_lem (states_of s.slots) s.current (omega (arith, len))) [
      | inl (f, nobody) ↦ ground (arith, sym f ∙ e)
      | inr (k, f, lt, runs, first) ↦
          let same : k ≡ s.current = some_inj _ _ (sym f ∙ e) in
          (
            ap (runs_at (states_of s.slots)) (sym same) ∙ runs,
            λ j hj other. elim (Bool-cases (runs_at (states_of s.slots) j)) [
              | inr idle ↦ idle
              | inl able ↦ ground (arith, first j (omega (arith, len)) able, len, same, other)
            ],
          )
    ]
