-- ===== src/Scheduler/Switching/Turns.antt =====
-- What the end of a process does to whose turn it is.
use aion_so.Base.{
  ℕ, ◌<◌, ◌≡◌, ◌≢◌, ◌⊎◌, inl, inr, refl, sym, ap, ◌∙◌, true, false, none, some, ◌==◌, ==→eq, ==→ne,
  set, length, length-set, arith, sub64, Bool-cases, some_inj,
}
use mathlib.Core.Bool.{false≢true}
use aion_so.Process.{close_everything}
use aion_so.Process.OpenFiles
use aion_so.Process.OpenFiles.{slot_at}
use aion_so.Scheduler.States.{State, can_run}
use aion_so.Scheduler.Messages.Laws.{slot_at-set, slot_at-lt}
use aion_so.Scheduler.{Slot, Scheduler, next_after, kill, kill_current, end_slot}
use aion_so.Scheduler.Switching.Laws.{switch_to_lem}
use aion_so.Scheduler.Switching.{
  Machine, saved_rsp, switch_to, leave_for_the_kernel, hand_on, end_current,
}
use aion_so.Scheduler.Switching.Successor.{next_after-cases}
use aion_so.Scheduler.Switching.Handover.{GaveWay, LeftForKernel, gave_way, left}

abbrev pub killed : Machine → Slot → Machine
killed m slot = record m {
  scheduler = record (m.scheduler) {
    slots = set m.scheduler.slots m.scheduler.current (some (end_slot slot));
  };
}

-- The slot of a process that has ended: dead, with no file open.
abbrev pub Ended : Machine → ℕ → Type 0
Ended m k =
    (s : Slot) × (slot_at m.scheduler.slots k ≡ some s)
    × (s.state ≡ State.dead)
    × (s.process.open_files ≡ OpenFiles.new)

kill_current-some :
    (m : Machine) (slot : Slot)
    → slot_at m.scheduler.slots m.scheduler.current ≡ some slot
    → kill_current m.scheduler ≡ (killed m slot).scheduler
unfolding kill_current
kill_current-some m slot e = rw (e, kill) refl

end_current-killed :
    (m : Machine) (slot : Slot)
    → kill_current m.scheduler ≡ (killed m slot).scheduler
    → end_current m ≡ hand_on (killed m slot) m.scheduler.current
unfolding end_current
end_current-killed m slot k =
    ap (λ (s : Scheduler). hand_on (record m { scheduler = s }) m.scheduler.current) k

hand_on-none :
    (m : Machine) (current : ℕ)
    → next_after m.scheduler current ≡ none
    → hand_on m current ≡ some (leave_for_the_kernel m current)
unfolding hand_on
hand_on-none m current e = ground (arith, e)

hand_on-some :
    (m : Machine) (current next : ℕ)
    → next_after m.scheduler current ≡ some next
    → (next == current) ≡ false
    → hand_on m current ≡ switch_to m current next
unfolding hand_on
hand_on-some m current next e other = ground (arith, e, other)

ended_slot :
    (slot : Slot) (rsp : ℕ)
    → ((record (end_slot slot) { kernel_rsp = rsp }).state ≡ State.dead)
      × ((end_slot slot).process.open_files ≡ OpenFiles.new)
unfolding end_slot close_everything OpenFiles.new
ended_slot slot rsp = (refl, refl)

dead_cannot_run : (slot : Slot) → can_run (end_slot slot).state ≡ true → ⊥
unfolding end_slot can_run
dead_cannot_run slot h = false≢true h

left_slot :
    (m : Machine) (slot : Slot)
    → slot_at m.scheduler.slots m.scheduler.current ≡ some slot
    → slot_at (leave_for_the_kernel m m.scheduler.current).scheduler.slots m.scheduler.current
      ≡ some (record slot { kernel_rsp = saved_rsp m.cpu })
unfolding leave_for_the_kernel
left_slot m slot e =
    rw (e, leave_for_the_kernel)
      (slot_at-set m.scheduler.slots m.scheduler.current _
        (slot_at-lt m.scheduler.slots m.scheduler.current slot e))

-- A process that exits or faults ends: the call always answers, its slot is dead with every file
-- closed, and the CPU goes to another process, which can run, or back to the kernel when none can.
pub end_current_lem :
    (m : Machine) (slot : Slot)
    → slot_at m.scheduler.slots m.scheduler.current ≡ some slot
    → m.scheduler.current < length m.scheduler.slots
    → (m' : Machine) × (end_current m ≡ some m')
      × (GaveWay (killed m slot) m' ⊎ LeftForKernel (killed m slot) m')
      × Ended m' m.scheduler.current
end_current_lem m slot here h =
    let k : kill_current m.scheduler ≡ (killed m slot).scheduler = kill_current-some m slot here in
    let gone : slot_at (killed m slot).scheduler.slots m.scheduler.current ≡ some (end_slot slot) =
      slot_at-set m.scheduler.slots m.scheduler.current _ h in
    elim (next_after-cases (killed m slot).scheduler
      (omega (arith, length-set m.scheduler.slots m.scheduler.current (some (end_slot slot))))) [
        | inl (e, nobody) ↦ (
          leave_for_the_kernel (killed m slot) m.scheduler.current,
          end_current-killed m slot k ∙ hand_on-none (killed m slot) m.scheduler.current e,
          inr (left (killed m slot) (end_slot slot) gone nobody),
          (
            record (end_slot slot) { kernel_rsp = saved_rsp m.cpu },
            left_slot (killed m slot) (end_slot slot) gone,
            (ended_slot slot 0).0,
            (ended_slot slot 0).1,
          ),
        )
        | inr (next, e, lt, (there, at, runs)) ↦ elim (Bool-cases (next == m.scheduler.current)) [
          | inl same ↦
              let same_slot : there ≡ end_slot slot =
                some_inj _ _ (
                  sym at
                  ∙ (ap (slot_at (killed m slot).scheduler.slots) (==→eq _ _ same) ∙ gone)) in
              absurd
                (dead_cannot_run slot (ap (λ (t : Slot). can_run t.state) (sym same_slot) ∙ runs))
          | inr other ↦
              let ne : m.scheduler.current ≢ next = λ c. ==→ne _ _ other (sym c) in
              let (m', went, g) =
                gave_way (killed m slot) (end_slot slot) there next gone at runs ne in
              let (m'', went', _, _, _, saved, _) =
                switch_to_lem (killed m slot) m.scheduler.current next (end_slot slot) there gone at
                  ne in
              let alike : m'' ≡ m' = some_inj _ _ (sym went' ∙ went) in
              (
                m',
                end_current-killed m slot k
                    ∙ (hand_on-some (killed m slot) m.scheduler.current next e other ∙ went),
                inl g,
                (
                  record (end_slot slot) { kernel_rsp = sub64 m.cpu.rsp 72 },
                  ap (λ (t : Machine). slot_at t.scheduler.slots m.scheduler.current) (sym alike)
                      ∙ saved,
                  (ended_slot slot 0).0,
                  (ended_slot slot 0).1,
                ),
              )
        ]
      ]
