-- ===== src/Scheduler/Switching/Laws.antt =====
-- A switch leaves the registers as the process coming in needs them, and its own stack pointer
-- where the next switch back finds it.
use aion_so.Base.{
  ℕ, ◌<◌, ◌≡◌, ◌≢◌, refl, sym, ap, ◌∙◌, true, some, set, arith, add64, sub64, word_size, some_inj,
}
use aion_so.Process.OpenFiles.{slot_at}
use aion_so.Scheduler.Messages.Laws.{slot_at-set, slot_at-set_ne, slot_at-lt}
use aion_so.Scheduler.{Slot}
use aion_so.Scheduler.Switching.{Cpu, Machine, saved_rsp, switched, prepare_cpu_for, switch_to}

-- The CPU walks the tables of the process in the current slot, and enters the kernel on its stack.
pub record IsRunning (m : Machine) : Type 0 where
  pub slot : Slot
  pub there : slot_at m.scheduler.slots m.scheduler.current ≡ some slot
  pub tables : m.cpu.cr3 ≡ slot.process.space
  pub interrupts : m.cpu.rsp0 ≡ slot.kernel_stack_top.as_u64
  pub syscalls : m.cpu.syscall_rsp ≡ slot.kernel_stack_top.as_u64

abbrev pub leaving_for : Machine → ℕ → ℕ → Slot → Slot → Machine
leaving_for m from to leaving next = record m {
  scheduler = record (m.scheduler) {
    slots = set m.scheduler.slots from (some (record leaving { kernel_rsp = sub64 m.cpu.rsp 72 }));
    switching = true;
    current = to;
  };
  cpu = record {
    rsp = add64 next.kernel_rsp 72;
    cr3 = next.process.space;
    rsp0 = next.kernel_stack_top.as_u64;
    syscall_rsp = next.kernel_stack_top.as_u64;
  };
}

pub switch_to-some :
    (m : Machine) (from to : ℕ) (leaving next : Slot)
    → slot_at m.scheduler.slots from ≡ some leaving
    → slot_at m.scheduler.slots to ≡ some next
    → switch_to m from to ≡ some (leaving_for m from to leaving next)
unfolding switch_to prepare_cpu_for saved_rsp switched
switch_to-some m from to leaving next hf ht =
    rw (ht, switch_to) (rw (hf, switch_to) (rw (ht, prepare_cpu_for) refl))

-- A switch between two slots that hold a process goes through. Afterwards the CPU runs the one it
-- went to, from the stack pointer that this one left; the one that left has its own stack pointer
-- saved, and no other slot has changed.
pub switch_to_lem :
    (m : Machine) (from to : ℕ) (leaving next : Slot)
    → slot_at m.scheduler.slots from ≡ some leaving
    → slot_at m.scheduler.slots to ≡ some next
    → from ≢ to
    → (m' : Machine) × (switch_to m from to ≡ some m')
      × IsRunning m'
      × (m'.scheduler.current ≡ to)
      × (m'.cpu.rsp ≡ add64 next.kernel_rsp 72)
      × (slot_at m'.scheduler.slots from
          ≡ some (record leaving { kernel_rsp = sub64 m.cpu.rsp 72 }))
      × ((j : ℕ) → from ≢ j → slot_at m'.scheduler.slots j ≡ slot_at m.scheduler.slots j)
switch_to_lem m from to leaving next hf ht ne = (
  leaving_for m from to leaving next,
  switch_to-some m from to leaving next hf ht,
  record {
    slot = next;
    there = slot_at-set_ne m.scheduler.slots from to _ ne ∙ ht;
    tables = refl;
    interrupts = refl;
    syscalls = refl;
  },
  refl,
  refl,
  slot_at-set m.scheduler.slots from _ (slot_at-lt m.scheduler.slots from leaving hf),
  λ j other. slot_at-set_ne m.scheduler.slots from j _ other,
)

-- Switching away and, from whatever registers the other side has by then, back again restores the
-- stack pointer and the tables of the process that left.
pub switch_back :
    (m m' m'' : Machine) (a b : ℕ) (leaving next : Slot) (other : Cpu)
    → slot_at m.scheduler.slots a ≡ some leaving
    → slot_at m.scheduler.slots b ≡ some next
    → a ≢ b
    → m.cpu.rsp < word_size
    → switch_to m a b ≡ some m'
    → switch_to (record m' { cpu = other }) b a ≡ some m''
    → (m''.cpu.rsp ≡ m.cpu.rsp)
      × (m''.cpu.cr3 ≡ leaving.process.space)
      × (m''.scheduler.current ≡ a)
switch_back m m' m'' a b leaving next other ha hb ne fits e e' =
    let first : leaving_for m a b leaving next ≡ m' =
      some_inj _ _ (sym (switch_to-some m a b leaving next ha hb) ∙ e) in
    let back : switch_to (record (leaving_for m a b leaving next) { cpu = other }) b a ≡ some m'' =
      ap (λ (t : Machine). switch_to (record t { cpu = other }) b a) first ∙ e' in
    let m₁ : Machine = record (leaving_for m a b leaving next) { cpu = other } in
    let gone : Slot = record leaving { kernel_rsp = sub64 m.cpu.rsp 72 } in
    let second : leaving_for m₁ b a next gone ≡ m'' = some_inj _ _ (
      sym (
        switch_to-some m₁ b a next gone (slot_at-set_ne m.scheduler.slots a b _ ne ∙ hb)
          (slot_at-set m.scheduler.slots a _ (slot_at-lt m.scheduler.slots a leaving ha)))
      ∙ back) in
    rw (← second) (omega arith, refl, refl)
