-- ===== src/Scheduler.antt =====
-- kernel/src/scheduler.rs: who exists, who is running, and giving the CPU from one to another.
pub mod States
pub mod Rotation
pub mod Messages
pub mod Switching
mod Tests
use States.{State, can_run, waiting, woken, is_state, next_runnable}
use aion_so.Base.{
  ℕ, suc, Bool, true, false, not, ◌&&◌, Option, none, some, List, [], ◌∷◌, if◌then◌else◌, ◌==◌, set,
  replicate,
}
use aion_so.Hal.Addr.{VirtAddr}
use aion_so.Ipc.{Mailbox}
use aion_so.Process.{Process, close_everything}
use aion_so.Process.OpenFiles.{first_free, slot_at}

abbrev pub max_processes : ℕ
max_processes = 16

pub record Slot : Type 0 where
  pub process : Process
  pub state : State
  pub kernel_rsp : ℕ
  pub kernel_stack_top : VirtAddr
  pub mailbox : Mailbox

pub record Scheduler : Type 0 where
  pub slots : List (Option Slot)
  pub current : ℕ
  pub switching : Bool
  pub handed_over : Bool

unfoldable pub new : Scheduler
new = record {
  slots = replicate max_processes none;
  current = 0;
  switching = false;
  handed_over = false;
}

-- Which slot was taken, and the scheduler after.
unfoldable pub add : Scheduler → Slot → Option ℕ × Scheduler
add s slot = elim (first_free s.slots) [
  | none ↦ (none, s)
  | some free ↦ (some free, record s { slots = set s.slots free (some slot) })
]

state_of : Option Slot → Option State
state_of none = none
state_of (some slot) = some slot.state

unfoldable pub states_of : List (Option Slot) → List (Option State)
unfolding state_of
states_of [] = []
states_of (slot ∷ rest) = state_of slot ∷ states_of rest

unfoldable pub states : Scheduler → List (Option State)
unfolding states_of
states s = states_of s.slots

unfoldable pub state : Scheduler → ℕ → Option State
unfolding state_of
state s index = state_of (slot_at s.slots index)

unfoldable pub end_slot : Slot → Slot
end_slot slot = record slot { state = State.dead; process = close_everything slot.process }

unfoldable pub kill : Scheduler → ℕ → Scheduler
unfolding end_slot
kill s index = elim (slot_at s.slots index) [
  | none ↦ s
  | some slot ↦ record s { slots = set s.slots index (some (end_slot slot)) }
]

unfoldable pub kill_current : Scheduler → Scheduler
unfolding kill
kill_current s = kill s s.current

-- The scheduler after, and whether the process was there and went.
unfoldable pub move_to : Scheduler → ℕ → (State → Option State) → Scheduler × Bool
move_to s index transition = elim (slot_at s.slots index) [
  | none ↦ (s, false)
  | some slot ↦ elim (transition slot.state) [
    | none ↦ (s, false)
    | some state' ↦
        (record s { slots = set s.slots index (some (record slot { state = state' })) }, true)
  ]
]

unfoldable pub block : Scheduler → ℕ → Scheduler × Bool
unfolding move_to
block s index = move_to s index waiting

unfoldable pub unblock : Scheduler → ℕ → Scheduler × Bool
unfolding move_to
unblock s index = move_to s index woken

count_states : (State → Bool) → List (Option State) → ℕ
count_states p [] = 0
count_states p (none ∷ rest) = count_states p rest
count_states p (some t ∷ rest) = let n = count_states p rest in if p t then suc n else n

pub blocked : Scheduler → ℕ
unfolding count_states
blocked s = count_states (λ t. is_state t State.blocked) (states s)

pub alive : Scheduler → ℕ
unfolding count_states
alive s = count_states (λ t. not (is_state t State.dead)) (states s)

unfoldable pub next_after : Scheduler → ℕ → Option ℕ
unfolding states
next_after s from = next_runnable (states s) from

unfoldable pub should_switch_on_tick : Scheduler → Bool
should_switch_on_tick s = s.handed_over && not s.switching
