-- ===== src/Ipc.antt =====
-- kernel/src/ipc.rs: the mailbox of a process, which holds one message at most.
pub mod Contract
pub mod Laws
mod Tests
use aion_so.Base.{
  ℕ, Bool, Option, none, some, List, ◌++◌, if◌then◌else◌, ltb, ◌==◌, length, take, drop, replicate,
}

abbrev pub capacity : ℕ
capacity = 64

pub record Delivery : Type 0 where
  pub sender : ℕ
  pub len : ℕ

pub data DeliverError : Type 0 where
  busy : DeliverError
  too_long : ℕ → DeliverError
  empty : DeliverError

pub data TakeError : Type 0 where
  nothing : TakeError
  too_long : ℕ → TakeError

pub data Result (E : Type 0) : Type 0 where
  ok : Delivery → Result E
  err : E → Result E

-- `bytes` is the whole array of `capacity` bytes.
pub record Mailbox : Type 0 where
  pub bytes : List ℕ
  pub waiting : Option Delivery

unfoldable pub new : Mailbox
new = record { bytes = replicate capacity 0; waiting = none }

unfoldable pub is_empty : Mailbox → Bool
is_empty m = elim m.waiting [ none ↦ Bool.true | some _ ↦ Bool.false ]

-- `into[..from.len()].copy_from_slice(from)`
abbrev pub copy_front : List ℕ → List ℕ → List ℕ
copy_front source into = source ++ drop (length source) into

-- The message is put at the front of the array; what stood behind it stays.
put : Mailbox → ℕ → List ℕ → Mailbox
put m sender message = record {
  bytes = copy_front message m.bytes;
  waiting = some (record { sender = sender; len = length message });
}

-- A method answers and leaves the mailbox after it.
unfoldable pub deliver : Mailbox → ℕ → List ℕ → Result DeliverError × Mailbox
unfolding put
deliver m sender message =
    if length message == 0
    then (err DeliverError.empty, m)
    else if ltb capacity (length message)
    then (err (DeliverError.too_long capacity), m)
    else elim m.waiting [
      | some _ ↦ (err DeliverError.busy, m)
      | none ↦ (ok (record { sender = sender; len = length message }), put m sender message)
    ]

-- The answer, the mailbox after and the caller's buffer after.
unfoldable pub take_into : Mailbox → List ℕ → Result TakeError × Mailbox × List ℕ
take_into m into = elim m.waiting [
  | none ↦ (err TakeError.nothing, m, into)
  | some delivery ↦
      if ltb (length into) delivery.len
      then (err (TakeError.too_long delivery.len), m, into)
      else (ok delivery, record m { waiting = none }, copy_front (take delivery.len m.bytes) into)
]
