-- ===== src/Keyboard/Machine.antt =====
-- arch/x86_64/src/keyboard.rs: `push` in the interrupt handler and `pop` in the kernel, one atomic
-- load or store at a time, in any order. One producer and one consumer.
use aion_so.Base.{ℕ, ◌≡◌, true, false, List, [], ◌∷◌, ◌++◌, ◌==◌, add64}
use aion_so.Keyboard.{ScancodeQueue, is_full, store_slot, load_slot, new}

-- Where `push` has got to, with the values it has loaded.
pub data Producer : Type 0 where
  idle : Producer
  loaded_tail : ℕ → ℕ → Producer
  has_room : ℕ → ℕ → Producer
  slot_stored : ℕ → ℕ → Producer

-- Where `pop` has got to.
pub data Consumer : Type 0 where
  idle : Consumer
  loaded_head : ℕ → Consumer
  not_empty : ℕ → Consumer
  slot_loaded : ℕ → ℕ → Consumer

-- `sent` are the scancodes that `push` answered `true` for, `received` those that `pop` answered.
pub record Machine : Type 0 where
  pub queue : ScancodeQueue
  pub producer : Producer
  pub consumer : Consumer
  pub sent : List ℕ
  pub received : List ℕ

abbrev pub machine : ScancodeQueue → Producer → Consumer → List ℕ → List ℕ → Machine
machine q p c s r = record { queue = q; producer = p; consumer = c; sent = s; received = r }

pub data Step : Machine → Machine → Type 0 where
  push_loads_tail :
      {q : ScancodeQueue} {c : Consumer} {s r : List ℕ} (v : ℕ)
      → Step (machine q Producer.idle c s r) (machine q (Producer.loaded_tail v q.tail) c s r)
  push_is_full :
      {q : ScancodeQueue} {c : Consumer} {s r : List ℕ} {v t : ℕ}
      → is_full t q.head ≡ true
      → Step (machine q (Producer.loaded_tail v t) c s r) (machine q Producer.idle c s r)
  push_has_room :
      {q : ScancodeQueue} {c : Consumer} {s r : List ℕ} {v t : ℕ}
      → is_full t q.head ≡ false
      → Step (machine q (Producer.loaded_tail v t) c s r) (machine q (Producer.has_room v t) c s r)
  push_stores_slot :
      {q : ScancodeQueue} {c : Consumer} {s r : List ℕ} {v t : ℕ}
      → Step
          (machine q (Producer.has_room v t) c s r)
          (machine (store_slot q t v) (Producer.slot_stored v t) c s r)
  push_stores_tail :
      {q : ScancodeQueue} {c : Consumer} {s r : List ℕ} {v t : ℕ}
      → Step
          (machine q (Producer.slot_stored v t) c s r)
          (machine (record q { tail = add64 t 1 }) Producer.idle c (s ++ v ∷ []) r)
  pop_loads_head :
      {q : ScancodeQueue} {p : Producer} {s r : List ℕ}
      → Step (machine q p Consumer.idle s r) (machine q p (Consumer.loaded_head q.head) s r)
  pop_is_empty :
      {q : ScancodeQueue} {p : Producer} {s r : List ℕ} {h : ℕ}
      → (h == q.tail) ≡ true
      → Step (machine q p (Consumer.loaded_head h) s r) (machine q p Consumer.idle s r)
  pop_finds_one :
      {q : ScancodeQueue} {p : Producer} {s r : List ℕ} {h : ℕ}
      → (h == q.tail) ≡ false
      → Step (machine q p (Consumer.loaded_head h) s r) (machine q p (Consumer.not_empty h) s r)
  pop_loads_slot :
      {q : ScancodeQueue} {p : Producer} {s r : List ℕ} {h : ℕ}
      → Step
          (machine q p (Consumer.not_empty h) s r)
          (machine q p (Consumer.slot_loaded h (load_slot q h)) s r)
  pop_stores_head :
      {q : ScancodeQueue} {p : Producer} {s r : List ℕ} {h v : ℕ}
      → Step
          (machine q p (Consumer.slot_loaded h v) s r)
          (machine (record q { head = add64 h 1 }) p Consumer.idle s (r ++ v ∷ []))

pub data Steps : Machine → Machine → Type 0 where
  stay : {m : Machine} → Steps m m
  then : {m n o : Machine} → Steps m n → Step n o → Steps m o

abbrev pub start : Machine
start = record {
  queue = new;
  producer = Producer.idle;
  consumer = Consumer.idle;
  sent = [];
  received = [];
}
