-- ===== src/Keyboard/Tests.antt =====
-- A queue with two scancodes in it, and a call of `push` that a call of `pop` interrupts.
use aion_so.Base.{
  ℕ, ◌≤◌, ◌≡◌, refl, Option, some, List, [], ◌∷◌, ◌++◌, length, arith, true, false, replicate,
}
use aion_so.Keyboard.{
  ScancodeQueue, Decoder, ConsoleKey, new, push, pop, feed, key_of, read_key_from, is_full,
}
use aion_so.Keyboard.Fifo.{Represents, Pushed, Popped, queue_lem}
use aion_so.Keyboard.Machine.{Machine, Producer, Consumer, Step, Steps, start}
use aion_so.Keyboard.Interleaving.{interleaving_lem}
use aion_so.Keyboard.Reading.{Answer, read_key_from_lem}

abbrev two : ScancodeQueue
two = record { slots = 0x2a ∷ 0x1e ∷ replicate 62 0; head = 0; tail = 2 }

two-Represents : Represents two 0 (0x2a ∷ 0x1e ∷ [])
two-Represents = record {
  size = refl;
  head_is = refl;
  tail_is = refl;
  room = omega arith;
  held = (refl, (refl, tt));
}

queue_lem_example :
    Pushed two 0 (0x2a ∷ 0x1e ∷ []) 7 (push two 7) × Popped two 0 (0x2a ∷ 0x1e ∷ []) (pop two)
queue_lem_example = queue_lem two 0 (0x2a ∷ 0x1e ∷ []) 7 two-Represents

abbrev decoder : Decoder
decoder = record { left_shift = false; right_shift = false; expecting_extended = false }

read_key_from_lem_example :
    (r : (Decoder × ScancodeQueue) × Option ConsoleKey) × (read_key_from 3 decoder two ≡ some r)
    × Answer decoder 0 (0x2a ∷ 0x1e ∷ []) r
read_key_from_lem_example =
    read_key_from_lem 3 decoder two 0 (0x2a ∷ 0x1e ∷ []) two-Represents (omega arith)

-- Shift, then the key of `a`.
capital_a :
    read_key_from 3 decoder two
    ≡ some
        ((record decoder { left_shift = true }, record two { head = 2 }), some (ConsoleKey.char 65))
unfolding read_key_from pop feed key_of
capital_a = refl

-- `pop` looks at the queue before the new tail is stored, and does not see the scancode.
abbrev interleaved : Machine
interleaved = record {
  queue = record { slots = 0x1e ∷ replicate 63 0; head = 0; tail = 1 };
  producer = Producer.idle;
  consumer = Consumer.idle;
  sent = 0x1e ∷ [];
  received = [];
}

run : Steps start interleaved
unfolding new is_full
run =
    Steps.then
      (Steps.then
        (Steps.then
          (Steps.then
            (Steps.then (Steps.then Steps.stay (Step.push_loads_tail 0x1e))
              (Step.push_has_room refl))
            Step.push_stores_slot)
          Step.pop_loads_head)
        (Step.pop_is_empty refl))
      Step.push_stores_tail

interleaving_lem_example :
    (waiting : List ℕ) × (interleaved.sent ≡ interleaved.received ++ waiting)
    × (length waiting ≤ 64)
interleaving_lem_example = interleaving_lem interleaved run
