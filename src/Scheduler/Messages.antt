-- ===== src/Scheduler/Messages.antt =====
-- Messages between processes, and who is running.
pub mod Laws
use aion_so.Base.{
  ℕ, Bool, true, false, not, Option, none, some, List, [], ◌∷◌, if◌then◌else◌, ◌==◌, set, any,
}
use aion_so.Hal.Frame.{PhysRange}
use aion_so.Ipc.{Delivery, DeliverError, TakeError, Mailbox}
use aion_so.Ipc
use aion_so.Process.{Process, ranges, writable_ranges, has_open}
use aion_so.Process.Ranges.{owned_by}
use aion_so.Process.OpenFiles.{slot_at}
use aion_so.Scheduler.States.{State, is_state}
use aion_so.Scheduler.{Slot, Scheduler, unblock}

pub data SendError : Type 0 where
  no_such_process busy : SendError
  rejected : DeliverError → SendError

pub data SendResult : Type 0 where
  sent : Delivery → SendResult
  refused : SendError → SendResult

unfoldable pub send_error : DeliverError → SendError
send_error DeliverError.busy = busy
send_error (DeliverError.too_long n) = rejected (DeliverError.too_long n)
send_error DeliverError.empty = rejected DeliverError.empty

-- After the mailbox answered: only a message that went in wakes the receiver.
delivered : Scheduler → ℕ → Slot → Ipc.Result DeliverError × Mailbox → SendResult × Scheduler
unfolding send_error
delivered s to slot (Ipc.Result.err e, m) = (refused (send_error e), s)
delivered s to slot (Ipc.Result.ok d, m) = (
  sent d,
  (unblock (record s { slots = set s.slots to (some (record slot { mailbox = m })) }) to).0,
)

unfoldable pub deliver : Scheduler → ℕ → ℕ → List ℕ → SendResult × Scheduler
unfolding delivered
deliver s to sender message = elim (slot_at s.slots to) [
  | none ↦ (refused no_such_process, s)
  | some slot ↦
      if is_state slot.state State.dead
      then (refused no_such_process, s)
      else delivered s to slot (Ipc.deliver slot.mailbox sender message)
]

-- The answer, the scheduler after and the caller's buffer after.
unfoldable pub take_message : Scheduler → List ℕ → Ipc.Result TakeError × Scheduler × List ℕ
take_message s into = elim (slot_at s.slots s.current) [
  | none ↦ (Ipc.Result.err TakeError.nothing, s, into)
  | some slot ↦
      let (r, m, into') = Ipc.take_into slot.mailbox into in
      (r, record s { slots = set s.slots s.current (some (record slot { mailbox = m })) }, into')
]

pub record Running : Type 0 where
  pub slot : ℕ
  pub owned : List PhysRange
  pub writable : List PhysRange

unfoldable pub running : Scheduler → Option Running
running s = if not s.handed_over then none else elim (slot_at s.slots s.current) [
  | none ↦ none
  | some held ↦
      if is_state held.state State.dead
      then none
      else some (record {
        slot = s.current;
        owned = ranges held.process;
        writable = writable_ranges held.process;
      })
]

-- `with_running`: the operation's answer, and the scheduler with the process as it left it.
unfoldable pub with_running {ℓ} :
    {R : Type ℓ} → Scheduler → (Process → R × Process) → Option R × Scheduler
with_running s operation =
    if not s.handed_over then (none, s) else elim (slot_at s.slots s.current) [
      | none ↦ (none, s)
      | some held ↦
          if is_state held.state State.dead
          then (none, s)
          else (let (answer, process) = operation held.process in
              (
                some answer,
                record s {
                  slots = set s.slots s.current (some (record held { process = process }));
                },
              ))
    ]

pub running_owns : Running → ℕ → ℕ → Bool
running_owns r ptr len = owned_by r.owned ptr len

pub running_owns_writable : Running → ℕ → ℕ → Bool
running_owns_writable r ptr len = owned_by r.writable ptr len

slot_has_open : List ℕ → Option Slot → Bool
slot_has_open name none = false
slot_has_open name (some slot) = has_open slot.process name

unfoldable pub anyone_has_open : Scheduler → List ℕ → Bool
unfolding slot_has_open
anyone_has_open s name = any (slot_has_open name) s.slots

-- The slots of the processes that have ended.
unfoldable pub dead_processes : List (Option Slot) → List Process
dead_processes [] = []
dead_processes (none ∷ rest) = dead_processes rest
dead_processes (some slot ∷ rest) =
    let others = dead_processes rest in
    if is_state slot.state State.dead then slot.process ∷ others else others
