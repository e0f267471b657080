-- ===== src/Scheduler/Tests.antt =====
-- Three processes: one that runs, one that waits for a message and one that never ran.
use aion_so.Base.{
  ℕ, ◌+◌, ◌≤◌, ◌<◌, ◌≡◌, ◌≢◌, ◌⊎◌, refl, true, false, Option, none, some, List, [], ◌∷◌, arith,
  add64, sub64,
}
use aion_so.Hal.Addr.{virt}
use aion_so.Process.{Process}
use aion_so.Process.OpenFiles.{slot_at}
use aion_so.Scheduler.States.{State, can_run, next_runnable, runs_at}
use aion_so.Scheduler.Rotation.{distance, next_runnable_lem, turn, turn_comes}
use aion_so.Scheduler.{Slot, Scheduler, states}
use aion_so.Scheduler.Messages.{deliver}
use aion_so.Scheduler.Messages.Laws.{Answer, deliver_lem}
use aion_so.Scheduler.Switching.{Machine, switch_to, switch_to_next, wait_for_message, end_current}
use aion_so.Scheduler.Switching.Laws.{IsRunning, switch_to_lem}
use aion_so.Scheduler.Switching.Successor.{NobodyElse}
use aion_so.Scheduler.Switching.Handover.{
  GaveWay, LeftForKernel, parked, switch_to_next_lem, wait_for_message_lem,
}
use aion_so.Scheduler.Switching.Turns.{Ended, killed, end_current_lem}

abbrev process : ℕ → Process
process space = record {
  space = space;
  owned = [];
  writable = [];
  frames = [];
  entry = virt 0x40_0000;
  kernel_stack = record { bottom = virt (space + 0x1000); top = virt (space + 0x5000) };
  open_files = none ∷ none ∷ none ∷ none ∷ [];
}

abbrev slot : ℕ → State → Slot
slot space state = record {
  process = process space;
  state = state;
  kernel_rsp = space + 0x4f00;
  kernel_stack_top = virt (space + 0x5000);
  mailbox = record { bytes = []; waiting = none };
}

abbrev three : Scheduler
three = record {
  slots =
      some (slot 0x10_0000 State.runnable)
      ∷ some (slot 0x20_0000 State.blocked)
      ∷ some (slot 0x30_0000 State.new)
      ∷ [];
  current = 0;
  switching = false;
  handed_over = true;
}

abbrev machine : Machine
machine = record {
  scheduler = three;
  kernel_rsp = 0x9000;
  kernel_cr3 = 0x1000;
  cpu = record { rsp = 0x10_4e00; cr3 = 0x10_0000; rsp0 = 0x10_5000; syscall_rsp = 0x10_5000 };
}

abbrev three_states : List (Option State)
three_states = some State.runnable ∷ some State.blocked ∷ some State.new ∷ []

next_runnable_lem_example :
    ((next_runnable three_states 0 ≡ none) × ((j : ℕ) → j < 3 → runs_at three_states j ≡ false))
    ⊎ ((k : ℕ) × (next_runnable three_states 0 ≡ some k)
        × (k < 3)
        × (runs_at three_states k ≡ true)
        × ((j : ℕ) → j < 3 → runs_at three_states j ≡ true → distance 3 0 k ≤ distance 3 0 j))
next_runnable_lem_example = next_runnable_lem three_states 0 (omega arith)

-- Slot 1 waits, so the turn goes to slot 2.
skips_who_waits : next_runnable three_states 0 ≡ some 2
unfolding next_runnable runs_at
skips_who_waits = refl

turn_comes_example : (n : ℕ) × (1 ≤ n) × (n ≤ 3) × (turn n three_states 0 ≡ some 2)
unfolding runs_at
turn_comes_example = turn_comes three_states 0 2 (omega arith) (omega arith) refl

deliver_lem_example : Answer three 1 0 (104 ∷ 105 ∷ []) (deliver three 1 0 (104 ∷ 105 ∷ []))
deliver_lem_example = deliver_lem three 1 0 (104 ∷ 105 ∷ [])

switch_to_lem_example :
    (m' : Machine) × (switch_to machine 0 2 ≡ some m')
    × IsRunning m'
    × (m'.scheduler.current ≡ 2)
    × (m'.cpu.rsp ≡ add64 0x30_4f00 72)
    × (slot_at m'.scheduler.slots 0
        ≡ some (record (slot 0x10_0000 State.runnable) { kernel_rsp = sub64 0x10_4e00 72 }))
    × ((j : ℕ) → 0 ≢ j → slot_at m'.scheduler.slots j ≡ slot_at three.slots j)
unfolding slot_at
switch_to_lem_example =
    switch_to_lem machine 0 2 (slot 0x10_0000 State.runnable) (slot 0x30_0000 State.new) refl refl
      (omega arith)

abbrev runs_third : IsRunning machine
unfolding slot_at
runs_third = record {
  slot = slot 0x10_0000 State.runnable;
  there = refl;
  tables = refl;
  interrupts = refl;
  syscalls = refl;
}

switch_to_next_lem_example :
    (m' : Machine) × (switch_to_next machine ≡ some m')
    × (((m' ≡ machine) × ((false ≡ true) ⊎ ((runs_at (states three) 0 ≡ true) × NobodyElse three)))
        ⊎ (false ≡ false) × (GaveWay machine m' ⊎ LeftForKernel machine m'))
switch_to_next_lem_example = switch_to_next_lem machine runs_third (omega arith)

wait_for_message_lem_example :
    ((wait_for_message machine ≡ some (machine, false))
      × (NobodyElse three ⊎ (can_run State.runnable ≡ false)))
    ⊎ ((m' : Machine) × (wait_for_message machine ≡ some (m', true))
        × GaveWay (parked machine (slot 0x10_0000 State.runnable)) m'
        × (slot_at m'.scheduler.slots 0
            ≡ some (record (slot 0x10_0000 State.runnable) {
              state = State.blocked;
              kernel_rsp = sub64 0x10_4e00 72;
            })))
unfolding slot_at
wait_for_message_lem_example =
    wait_for_message_lem machine (slot 0x10_0000 State.runnable) refl (omega arith)

end_current_lem_example :
    (m' : Machine) × (end_current machine ≡ some m')
    × (GaveWay (killed machine (slot 0x10_0000 State.runnable)) m'
        ⊎ LeftForKernel (killed machine (slot 0x10_0000 State.runnable)) m')
    × Ended m' 0
unfolding slot_at
end_current_lem_example = end_current_lem machine (slot 0x10_0000 State.runnable) refl (omega arith)
