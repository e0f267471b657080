-- ===== src/Scheduler/States.antt =====
-- The states of a process, and the order in which processes get the CPU.
use aion_so.Base.{
  ℕ, zero, suc, ◌+◌, ◌%◌, Bool, true, false, Option, none, some, List, if◌then◌else◌, ◌==◌, length,
}
use aion_so.Process.OpenFiles.{slot_at}

pub data State : Type 0 where
  new runnable blocked dead : State

abbrev variant : State → ℕ
variant State.new = 0
variant State.runnable = 1
variant State.blocked = 2
variant State.dead = 3

abbrev pub is_state : State → State → Bool
is_state a b = variant a == variant b

unfoldable pub can_run : State → Bool
can_run State.new = true
can_run State.runnable = true
can_run State.blocked = false
can_run State.dead = false

unfoldable pub waiting : State → Option State
unfolding can_run
waiting s = if can_run s then some State.blocked else none

unfoldable pub woken : State → Option State
woken s = if is_state s State.blocked then some State.runnable else none

-- `states[index].is_some_and(State::can_run)`
unfoldable pub runs_at : List (Option State) → ℕ → Bool
unfolding slot_at can_run
runs_at states index = elim (slot_at states index) [ none ↦ false | some s ↦ can_run s ]

-- `(step..step + n).map(|step| (from + step) % len).find(…)`
unfoldable pub find_from : ℕ → ℕ → List (Option State) → ℕ → Option ℕ
find_from zero step states from = none
find_from (suc n) step states from =
    let rest = find_from n (step + 1) states from in
    let index = (from + step) % length states in if runs_at states index then some index else rest

unfoldable pub next_runnable : List (Option State) → ℕ → Option ℕ
unfolding find_from
next_runnable states from = find_from (length states) 1 states from
