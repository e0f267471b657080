-- ===== src/Scheduler/Switching/Handover.antt =====
-- What a tick, a yield and a wait for a message do to whose turn it is.
use aion_so.Base.{
  ℕ, ◌<◌, ◌≡◌, ◌≢◌, ◌⊎◌, inl, inr, refl, sym, ap, ◌∙◌, true, false, some, ◌==◌, ==→eq, ==→ne, set,
  length, arith, add64, sub64, Bool-cases, some_inj,
}
use aion_so.Process.OpenFiles.{slot_at}
use aion_so.Scheduler.States.{State, can_run, waiting, runs_at}
use aion_so.Scheduler.Messages.Laws.{slot_at-set, slot_at-set_ne}
use aion_so.Scheduler.{Slot, Scheduler, states, block, move_to}
use aion_so.Scheduler.Switching.Laws.{IsRunning, switch_to_lem}
use aion_so.Scheduler.Switching.{
  Machine, switched, switch_to, leave_for_the_kernel, switch_to_next, wait_for_message,
}
use aion_so.Scheduler.Switching.Successor.{next_after-cases, NobodyElse, next_after_itself}

-- The CPU went to another process, which can run.
pub record GaveWay (m m' : Machine) : Type 0 where
  pub elsewhere : m.scheduler.current ≢ m'.scheduler.current
  pub running : IsRunning m'
  pub runnable : can_run running.slot.state ≡ true
  pub resumes : m'.cpu.rsp ≡ add64 running.slot.kernel_rsp 72

-- Nobody can run, and the CPU is back in the kernel's own flow.
pub record LeftForKernel (m m' : Machine) : Type 0 where
  pub nobody : (j : ℕ) → j < length m.scheduler.slots → runs_at (states m.scheduler) j ≡ false
  pub stack : m'.cpu.rsp ≡ add64 m.kernel_rsp 72
  pub tables : m'.cpu.cr3 ≡ m.kernel_cr3

pub gave_way :
    (m : Machine) (leaving next : Slot) (k : ℕ)
    → slot_at m.scheduler.slots m.scheduler.current ≡ some leaving
    → slot_at m.scheduler.slots k ≡ some next
    → can_run next.state ≡ true
    → m.scheduler.current ≢ k
    → (m' : Machine) × (switch_to m m.scheduler.current k ≡ some m') × GaveWay m m'
gave_way m leaving next k hf ht runs ne =
    let (m', e, r, at, rsp, _, same) =
      switch_to_lem m m.scheduler.current k leaving next hf ht ne in
    let is_next : next ≡ r.slot =
      some_inj _ _ (sym (same k ne ∙ ht) ∙ (ap (slot_at m'.scheduler.slots) (sym at) ∙ r.there)) in
    (
      m',
      e,
      record {
        elsewhere = λ c. ne (c ∙ at);
        running = r;
        runnable = ap (λ (t : Slot). can_run t.state) (sym is_next) ∙ runs;
        resumes = rsp ∙ ap (λ (t : Slot). add64 t.kernel_rsp 72) is_next;
      },
    )

pub left :
    (m : Machine) (slot : Slot)
    → slot_at m.scheduler.slots m.scheduler.current ≡ some slot
    → ((j : ℕ) → j < length m.scheduler.slots → runs_at (states m.scheduler) j ≡ false)
    → LeftForKernel m (leave_for_the_kernel m m.scheduler.current)
unfolding leave_for_the_kernel switched
left m slot e nobody = record {
  nobody = nobody;
  stack = rw (e, leave_for_the_kernel) refl;
  tables = rw (e, leave_for_the_kernel) refl;
}

-- `switch_to_next` always answers. It does nothing in the middle of a switch or when the running
-- process can run and no other can, gives the CPU to another process that can, and goes back to the
-- kernel when nobody can.
pub switch_to_next_lem :
    (m : Machine)
    → IsRunning m
    → m.scheduler.current < length m.scheduler.slots
    → (m' : Machine) × (switch_to_next m ≡ some m')
      × (((m' ≡ m)
            × ((m.scheduler.switching ≡ true)
                ⊎ ((runs_at (states m.scheduler) m.scheduler.current ≡ true)
                    × NobodyElse m.scheduler)))
          ⊎ (m.scheduler.switching ≡ false) × (GaveWay m m' ⊎ LeftForKernel m m'))
unfolding switch_to_next
switch_to_next_lem m r h = elim (Bool-cases m.scheduler.switching) [
  | inl busy ↦ (m, ground (arith, busy), inl (refl, inl busy))
  | inr idle ↦ elim (next_after-cases m.scheduler h) [
    | inl (e, nobody) ↦ (
      leave_for_the_kernel m m.scheduler.current,
      ground (arith, e, idle),
      inr (idle, inr (left m r.slot r.there nobody)),
    )
    | inr (k, e, lt, (next, at, runs)) ↦ elim (Bool-cases (k == m.scheduler.current)) [
      | inl same ↦ (
        m,
        ground (arith, e, idle, same),
        inl (refl, inr (next_after_itself m.scheduler h (e ∙ ap some (==→eq _ _ same)))),
      )
      | inr other ↦
          let (m', went, g) =
            gave_way m r.slot next k r.there at runs (λ c. ==→ne _ _ other (sym c)) in
          (m', ground (arith, e, idle, other, went), inr (idle, inl g))
    ]
  ]
]

block-some :
    (s : Scheduler) (k : ℕ) (slot : Slot)
    → slot_at s.slots k ≡ some slot
    → can_run slot.state ≡ true
    → block s k
      ≡ (record s { slots = set s.slots k (some (record slot { state = State.blocked })) }, true)
unfolding block waiting
block-some s k slot e runs = rw (e, move_to) (rw runs refl)

block-none :
    (s : Scheduler) (k : ℕ) (slot : Slot)
    → slot_at s.slots k ≡ some slot
    → can_run slot.state ≡ false
    → block s k ≡ (s, false)
unfolding block waiting
block-none s k slot e runs = rw (e, move_to) (rw runs refl)

abbrev pub parked : Machine → Slot → Machine
parked m slot = record m {
  scheduler = record (m.scheduler) {
    slots =
        set m.scheduler.slots m.scheduler.current (some (record slot { state = State.blocked }));
  };
}

-- `wait_for_message` always answers. `false` means that nothing changed, and that nobody else can
-- run, so that nobody could ever send, or the caller could not run itself. `true` means that the
-- caller's state is `Blocked` and that the CPU went to another process, which can run.
pub wait_for_message_lem :
    (m : Machine) (slot : Slot)
    → slot_at m.scheduler.slots m.scheduler.current ≡ some slot
    → m.scheduler.current < length m.scheduler.slots
    → ((wait_for_message m ≡ some (m, false))
        × (NobodyElse m.scheduler ⊎ (can_run slot.state ≡ false)))
      ⊎ ((m' : Machine) × (wait_for_message m ≡ some (m', true))
          × GaveWay (parked m slot) m'
          × (slot_at m'.scheduler.slots m.scheduler.current
              ≡ some (record slot { state = State.blocked; kernel_rsp = sub64 m.cpu.rsp 72 })))
unfolding wait_for_message
wait_for_message_lem m slot here h = elim (next_after-cases m.scheduler h) [
  | inl (e, nobody) ↦ inl (rw (e, wait_for_message) refl, inl (λ j hj _. nobody j hj))
  | inr (k, e, lt, (next, at, runs)) ↦ elim (Bool-cases (k == m.scheduler.current)) [
    | inl same ↦ inl (
      ground (arith, e, same),
      inl (next_after_itself m.scheduler h (e ∙ ap some (==→eq _ _ same))).1,
    )
    | inr other ↦
        let ne : m.scheduler.current ≢ k = λ c. ==→ne _ _ other (sym c) in
        elim (Bool-cases (can_run slot.state)) [
          | inr stuck ↦ inl (
            ground (arith, e, other, block-none m.scheduler m.scheduler.current slot here stuck),
            inr stuck,
          )
          | inl able ↦
              let here' : slot_at (parked m slot).scheduler.slots m.scheduler.current
                  ≡ some (record slot { state = State.blocked }) =
                slot_at-set m.scheduler.slots m.scheduler.current _ h in
              let at' : slot_at (parked m slot).scheduler.slots k ≡ some next =
                slot_at-set_ne m.scheduler.slots m.scheduler.current k _ ne ∙ at in
              let (m', went, g) =
                gave_way (parked m slot) (record slot { state = State.blocked }) next k here' at'
                  runs ne in
              let (m'', went', _, _, _, saved, _) =
                switch_to_lem (parked m slot) m.scheduler.current k
                  (record slot { state = State.blocked }) next here' at' ne in
              let alike : m'' ≡ m' = some_inj _ _ (sym went' ∙ went) in
              inr (
                m',
                ground (
                  arith,
                  e,
                  other,
                  block-some m.scheduler m.scheduler.current slot here able,
                  went,
                ),
                g,
                ap (λ (t : Machine). slot_at t.scheduler.slots m.scheduler.current) (sym alike)
                    ∙ saved,
              )
        ]
  ]
]
