-- ===== src/Keyboard.antt =====
-- arch/x86_64/src/keyboard.rs: the queue of scancodes between the interrupt handler and the kernel,
-- and the decoder of scancode set 1. The counters `head` and `tail` wrap at 2^64.
pub mod Fifo
pub mod Machine
pub mod Interleaving
pub mod Reading
mod Tests
use Prim.Native.Nat.{bit_and}
use aion_so.Base.{
  ℕ, zero, suc, ◌+◌, ◌-◌, ◌%◌, ◌/◌, Bool, true, false, not, ◌&&◌, ◌||◌, Option, none, some, List,
  [], ◌∷◌, if◌then◌else◌, ◌==◌, ltb, get_or, get_elem?, set, replicate, add64, sub64,
}

abbrev pub queue_capacity : ℕ
queue_capacity = 64

pub record ScancodeQueue : Type 0 where
  pub slots : List ℕ
  pub head : ℕ
  pub tail : ℕ

unfoldable pub new : ScancodeQueue
new = record { slots = replicate queue_capacity 0; head = 0; tail = 0 }

unfoldable pub is_full : ℕ → ℕ → Bool
is_full tail head = sub64 tail head == queue_capacity

abbrev pub store_slot : ScancodeQueue → ℕ → ℕ → ScancodeQueue
store_slot q tail scancode = record q { slots = set q.slots (tail % queue_capacity) scancode }

abbrev pub load_slot : ScancodeQueue → ℕ → ℕ
load_slot q head = get_or q.slots (head % queue_capacity) 0

unfoldable pub push : ScancodeQueue → ℕ → ScancodeQueue × Bool
push q scancode =
    if is_full q.tail q.head
    then (q, false)
    else (record (store_slot q q.tail scancode) { tail = add64 q.tail 1 }, true)

unfoldable pub pop : ScancodeQueue → ScancodeQueue × Option ℕ
pop q =
    if q.head == q.tail
    then (q, none)
    else (record q { head = add64 q.head 1 }, some (load_slot q q.head))

-- `ConsoleKey` of hal/src/console.rs.
pub data ConsoleKey : Type 0 where
  char : ℕ → ConsoleKey
  enter backspace unknown : ConsoleKey

pub record Decoder : Type 0 where
  pub left_shift : Bool
  pub right_shift : Bool
  pub expecting_extended : Bool

-- Unshifted and shifted, from scancode 0 on; 0 is no character.
abbrev key_table : List (ℕ × ℕ)
key_table =
    (0, 0)
    ∷ (0, 0)
    ∷ (49, 33)
    ∷ (50, 64)
    ∷ (51, 35)
    ∷ (52, 36)
    ∷ (53, 37)
    ∷ (54, 94)
    ∷ (55, 38)
    ∷ (56, 42)
    ∷ (57, 40)
    ∷ (48, 41)
    ∷ (45, 95)
    ∷ (61, 43)
    ∷ (0, 0)
    ∷ (0, 0)
    ∷ (113, 81)
    ∷ (119, 87)
    ∷ (101, 69)
    ∷ (114, 82)
    ∷ (116, 84)
    ∷ (121, 89)
    ∷ (117, 85)
    ∷ (105, 73)
    ∷ (111, 79)
    ∷ (112, 80)
    ∷ (91, 123)
    ∷ (93, 125)
    ∷ (0, 0)
    ∷ (0, 0)
    ∷ (97, 65)
    ∷ (115, 83)
    ∷ (100, 68)
    ∷ (102, 70)
    ∷ (103, 71)
    ∷ (104, 72)
    ∷ (106, 74)
    ∷ (107, 75)
    ∷ (108, 76)
    ∷ (59, 58)
    ∷ (39, 34)
    ∷ (96, 126)
    ∷ (0, 0)
    ∷ (92, 124)
    ∷ (122, 90)
    ∷ (120, 88)
    ∷ (99, 67)
    ∷ (118, 86)
    ∷ (98, 66)
    ∷ (110, 78)
    ∷ (109, 77)
    ∷ (44, 60)
    ∷ (46, 62)
    ∷ (47, 63)
    ∷ (0, 0)
    ∷ (0, 0)
    ∷ (0, 0)
    ∷ (32, 32)
    ∷ []

unfoldable pub key_of : Bool → ℕ → ConsoleKey
key_of shifted make = elim (get_elem? key_table make) [
  | none ↦ ConsoleKey.unknown
  | some pair ↦
      if pair.0 == 0
      then ConsoleKey.unknown
      else ConsoleKey.char (if shifted then pair.1 else pair.0)
]

unfoldable pub feed : Decoder → ℕ → Decoder × Option ConsoleKey
feed d scancode =
    let released = not (bit_and scancode 0x80 == 0) in
    let make = bit_and scancode 0x7f in
    let plain = record d { expecting_extended = false } in
    if scancode == 0xe0
    then (record d { expecting_extended = true }, none)
    else if d.expecting_extended
    then (plain, if released then none else some ConsoleKey.unknown)
    else if make == 0x2a
    then (record plain { left_shift = not released }, none)
    else if make == 0x36
    then (record plain { right_shift = not released }, none)
    else if released
    then (plain, none)
    else if make == 0x0e
    then (plain, some ConsoleKey.backspace)
    else if make == 0x1c
    then (plain, some ConsoleKey.enter)
    else (plain, some (key_of (d.left_shift || d.right_shift) make))

-- Pops until a scancode completes a key or the queue is empty. Every round pops one, so a number of
-- rounds above what the queue holds is enough; `none` in front is a run that was cut off.
unfoldable pub read_key_from :
    ℕ → Decoder → ScancodeQueue → Option ((Decoder × ScancodeQueue) × Option ConsoleKey)
read_key_from zero d q = none
read_key_from (suc rounds) d q =
    let (q', popped) = pop q in
    elim popped [
      | none ↦ some ((d, q'), none)
      | some scancode ↦
          let (d', key) = feed d scancode in
          elim key [ some k ↦ some ((d', q'), some k) | none ↦ read_key_from rounds d' q' ]
    ]
