-- ===== src/Scheduler/Switching.antt =====
-- The switching half of kernel/src/scheduler.rs, over the registers that a switch touches
-- (arch/x86_64/src/switch.rs). A function that ends in `switch` returns the machine as the other
-- side finds it; what the other side does first is a function of its own (`resumed`, `run_first`,
-- `back_in_kernel`).
pub mod Laws
pub mod Successor
pub mod Handover
pub mod Turns
use aion_so.Base.{
  ℕ, zero, suc, ◌+◌, ◌-◌, Bool, true, false, not, Option, none, some, List, if◌then◌else◌, ◌==◌,
  set, add64, sub64,
}
use aion_so.Hal.Addr.{VirtAddr}
use aion_so.Process.OpenFiles.{slot_at}
use aion_so.Scheduler.States.{State, is_state}
use aion_so.Scheduler.{
  Slot, Scheduler, max_processes, state, kill, kill_current, block, next_after,
  should_switch_on_tick,
}

-- The registers: the stack, the page tables, and where the CPU enters the kernel from ring 3 by an
-- interrupt (`TSS.rsp0`) and by a syscall.
pub record Cpu : Type 0 where
  pub rsp : ℕ
  pub cr3 : ℕ
  pub rsp0 : ℕ
  pub syscall_rsp : ℕ

-- `SCHEDULER`, `KERNEL_RSP`, `KERNEL_CR3` and the CPU.
pub record Machine : Type 0 where
  pub scheduler : Scheduler
  pub kernel_rsp : ℕ
  pub kernel_cr3 : ℕ
  pub cpu : Cpu

-- `switch`: the call and eight pushes lie between the stack pointer of the caller and what is
-- saved, and as much is popped on the other side.
abbrev frame_bytes : ℕ
frame_bytes = 72

unfoldable pub saved_rsp : Cpu → ℕ
saved_rsp c = sub64 c.rsp frame_bytes

unfoldable pub switched : Cpu → ℕ → ℕ → Cpu
switched c resume_rsp cr3 = record c { rsp = add64 resume_rsp frame_bytes; cr3 = cr3 }

unfoldable pub prepare_cpu_for : Scheduler → ℕ → Cpu → Cpu
prepare_cpu_for s index c = elim (slot_at s.slots index) [
  | none ↦ c
  | some slot ↦ record c {
    rsp0 = slot.kernel_stack_top.as_u64;
    syscall_rsp = slot.kernel_stack_top.as_u64;
  }
]

unfoldable pub save_rsp : Scheduler → ℕ → Slot → ℕ → Scheduler
save_rsp s index slot rsp = record s {
  slots = set s.slots index (some (record slot { kernel_rsp = rsp }));
}

-- `none` is one of the two `expect`s.
unfoldable pub switch_to : Machine → ℕ → ℕ → Option Machine
unfolding save_rsp
switch_to m from to = elim (slot_at m.scheduler.slots to) [
  | none ↦ none
  | some next ↦ elim (slot_at m.scheduler.slots from) [
    | none ↦ none
    | some leaving ↦
        let s = record (m.scheduler) { switching = true; current = to } in
        let c = prepare_cpu_for s to m.cpu in
        some (record m {
          scheduler = save_rsp s from leaving (saved_rsp c);
          cpu = switched c next.kernel_rsp next.process.space;
        })
  ]
]

-- What `switch_to` does when its process's turn has come round again.
unfoldable pub resumed : Machine → Machine
resumed m = record m { scheduler = record (m.scheduler) { switching = false } }

-- Where a process that never ran comes out instead.
unfoldable pub run_first : Machine → Option Machine
run_first m = elim (slot_at m.scheduler.slots m.scheduler.current) [
  | none ↦ none
  | some slot ↦ some (record m {
    scheduler = record (m.scheduler) {
      switching = false;
      slots =
          set m.scheduler.slots m.scheduler.current (some (record slot { state = State.runnable }));
    };
  })
]

unfoldable pub leave_for_the_kernel : Machine → ℕ → Machine
unfolding save_rsp
leave_for_the_kernel m current = elim (slot_at m.scheduler.slots current) [
  | none ↦ m
  | some slot ↦ record m {
    scheduler = save_rsp m.scheduler current slot (saved_rsp m.cpu);
    cpu = switched m.cpu m.kernel_rsp m.kernel_cr3;
  }
]

unfoldable pub switch_to_next : Machine → Option Machine
switch_to_next m =
    if m.scheduler.switching then some m else elim (next_after m.scheduler m.scheduler.current) [
      | none ↦ some (leave_for_the_kernel m m.scheduler.current)
      | some next ↦
          if next == m.scheduler.current then some m else switch_to m m.scheduler.current next
    ]

unfoldable pub on_tick : Machine → Option Machine
unfolding switch_to_next
on_tick m = if should_switch_on_tick m.scheduler then switch_to_next m else some m

-- What follows the end of the process in `current`.
unfoldable pub hand_on : Machine → ℕ → Option Machine
hand_on m current = elim (next_after m.scheduler current) [
  | none ↦ some (leave_for_the_kernel m current)
  | some next ↦
      if next == current then some (leave_for_the_kernel m current) else switch_to m current next
]

-- `exit_current` and `fault_current`. The audit line of the first is not part of the state here.
unfoldable pub end_current : Machine → Option Machine
unfolding hand_on
end_current m = hand_on (record m { scheduler = kill_current m.scheduler }) m.scheduler.current

-- The machine after, and the answer: `false` when nobody was parked.
unfoldable pub wait_for_message : Machine → Option (Machine × Bool)
wait_for_message m = elim (next_after m.scheduler m.scheduler.current) [
  | none ↦ some (m, false)
  | some next ↦
      if next == m.scheduler.current
      then some (m, false)
      else (let (s, parked) = block m.scheduler m.scheduler.current in
          if not parked
          then some (record m { scheduler = s }, false)
          else elim (switch_to (record m { scheduler = s }) m.scheduler.current next) [
            | none ↦ none
            | some m' ↦ some (m', true)
          ])
]

-- `run_until_empty` up to its switch; `none` of the inner option is nobody to run.
unfoldable pub run_until_empty : Machine → ℕ → Option Machine
run_until_empty m kernel_cr3 = elim (next_after m.scheduler 15) [
  | none ↦ none
  | some first ↦ elim (slot_at m.scheduler.slots first) [
    | none ↦ none
    | some slot ↦
        let s = record (m.scheduler) { current = first; handed_over = true } in
        let c = prepare_cpu_for s first m.cpu in
        some (record {
          scheduler = s;
          kernel_rsp = saved_rsp c;
          kernel_cr3 = kernel_cr3;
          cpu = switched c slot.kernel_rsp slot.process.space;
        })
  ]
]

is_blocked : Option State → Bool
is_blocked none = false
is_blocked (some t) = is_state t State.blocked

-- `for index in 0..MAX_PROCESSES`: whoever still waits is given up.
unfoldable pub give_up : ℕ → ℕ → Scheduler → Scheduler
unfolding is_blocked
give_up zero index s = s
give_up (suc n) index s =
    give_up n (index + 1) (if is_blocked (state s index) then kill s index else s)

-- And what it does once the kernel has the CPU back.
unfoldable pub back_in_kernel : Machine → Machine
unfolding give_up
back_in_kernel m = record m {
  scheduler = give_up max_processes 0 (record (m.scheduler) { handed_over = false });
}
