-- ===== src/Keyboard/Interleaving.antt =====
-- arch/x86_64/src/keyboard.rs: `push` in the interrupt handler and `pop` in the kernel, in any
-- interleaving: nothing is lost, doubled or reordered.
use aion_so.Base.{
  ℕ, suc, ◌+◌, ◌%◌, ◌≤◌, ◌<◌, ◌≡◌, refl, sym, ap, ◌∙◌, false, List, [], ◌∷◌, ◌++◌, ◌==◌, get_or,
  length, length-append, add64, arith,
}
use mathlib.Core.List.{append_assoc}
use aion_so.Keyboard.{ScancodeQueue, is_full, store_slot, load_slot, new}
use aion_so.Keyboard.Fifo.{Represents, full_lem, empty_lem, stored, published, taken}
use aion_so.Keyboard.Machine.{Producer, Consumer, Machine, machine, Step, Steps, start}

-- What each side knows of the shared queue at each point of its call.
abbrev Knows : ScancodeQueue → ℕ → List ℕ → Producer → Type 0
Knows q p w Producer.idle = Unit {0}
Knows q p w (Producer.loaded_tail v t) = t ≡ q.tail
Knows q p w (Producer.has_room v t) = (t ≡ q.tail) × (length w < 64)
Knows q p w (Producer.slot_stored v t) =
    (t ≡ q.tail) × (length w < 64) × (get_or q.slots ((p + length w) % 64) 0 ≡ v)

abbrev Sees : ScancodeQueue → List ℕ → Consumer → Type 0
Sees q w Consumer.idle = Unit {0}
Sees q w (Consumer.loaded_head h) = h ≡ q.head
Sees q w (Consumer.not_empty h) = (h ≡ q.head) × (0 < length w)
Sees q [] (Consumer.slot_loaded h v) = ⊥
Sees q (x ∷ w) (Consumer.slot_loaded h v) = (h ≡ q.head) × (v ≡ x)

pub record Invariant (m : Machine) : Type 0 where
  pub waiting : List ℕ
  pub order : m.sent ≡ m.received ++ waiting
  pub represents : Represents m.queue (length m.received) waiting
  pub knows : Knows m.queue (length m.received) waiting m.producer
  pub sees : Sees m.queue waiting m.consumer

room_left :
    (q : ScancodeQueue) (p : ℕ) (w : List ℕ) (t : ℕ)
    → Represents q p w
    → t ≡ q.tail
    → is_full t q.head ≡ false
    → length w < 64
room_left q p w t r e full =
    let f : is_full q.tail q.head ≡ false = ap (λ x. is_full x q.head) (sym e) ∙ full in
    ground (arith, sym (full_lem q p w r) ∙ f, r.room)

some_waiting :
    (q : ScancodeQueue) (p : ℕ) (w : List ℕ) (h : ℕ)
    → Represents q p w
    → h ≡ q.head
    → (h == q.tail) ≡ false
    → 0 < length w
some_waiting q p w h r e found =
    let f : (q.head == q.tail) ≡ false = ap (λ x. x == q.tail) (sym e) ∙ found in
    ground (arith, sym (empty_lem q p w r) ∙ f)

-- The consumer does not look at what the producer writes before the tail moves.
Sees-slot :
    (q q' : ScancodeQueue) (w : List ℕ) (c : Consumer) → q'.head ≡ q.head → Sees q w c → Sees q' w c
Sees-slot q q' w Consumer.idle e s = tt
Sees-slot q q' w (Consumer.loaded_head h) e s = s ∙ sym e
Sees-slot q q' w (Consumer.not_empty h) e s = (s.0 ∙ sym e, s.1)
Sees-slot q q' [] (Consumer.slot_loaded h v) e s = s
Sees-slot q q' (x ∷ w) (Consumer.slot_loaded h v) e s = (s.0 ∙ sym e, s.1)

Sees-append :
    (q q' : ScancodeQueue) (w : List ℕ) (v : ℕ) (c : Consumer)
    → q'.head ≡ q.head
    → Sees q w c
    → Sees q' (w ++ v ∷ []) c
Sees-append q q' w v Consumer.idle e s = tt
Sees-append q q' w v (Consumer.loaded_head h) e s = s ∙ sym e
Sees-append q q' w v (Consumer.not_empty h) e s =
    (s.0 ∙ sym e, omega (arith, length-append w (v ∷ []), s.1))
Sees-append q q' [] v (Consumer.slot_loaded h u) e s = elim s [ ]
Sees-append q q' (x ∷ w) v (Consumer.slot_loaded h u) e s = (s.0 ∙ sym e, s.1)

-- A scancode that leaves the queue changes nothing that the producer relies on.
Knows-taken :
    (q q' : ScancodeQueue) (p x : ℕ) (w : List ℕ) (c : Producer)
    → q'.tail ≡ q.tail
    → q'.slots ≡ q.slots
    → Knows q p (x ∷ w) c
    → Knows q' (suc p) w c
Knows-taken q q' p x w Producer.idle e f k = tt
Knows-taken q q' p x w (Producer.loaded_tail v t) e f k = k ∙ sym e
Knows-taken q q' p x w (Producer.has_room v t) e f k = (k.0 ∙ sym e, omega (arith, k.1))
Knows-taken q q' p x w (Producer.slot_stored v t) e f k =
    let (a, b, g) = k in
    let same : suc p + length w ≡ p + length (x ∷ w) = omega arith in
    (a ∙ sym e, omega (arith, b), rw (f, same) g)

store_lem :
    (q : ScancodeQueue) (c : Consumer) (s r : List ℕ) (v t : ℕ)
    → Invariant (machine q (Producer.has_room v t) c s r)
    → Invariant (machine (store_slot q t v) (Producer.slot_stored v t) c s r)
store_lem q c s r v t i =
    let (e, lt) = i.knows in
    let (kept, there) = stored q (length r) v i.waiting i.represents lt in
    record {
      waiting = i.waiting;
      order = i.order;
      represents = rw e kept;
      knows = (e, lt, rw e there);
      sees = Sees-slot q (store_slot q t v) i.waiting c refl i.sees;
    }

publish_lem :
    (q : ScancodeQueue) (c : Consumer) (s r : List ℕ) (v t : ℕ)
    → Invariant (machine q (Producer.slot_stored v t) c s r)
    → Invariant (machine (record q { tail = add64 t 1 }) Producer.idle c (s ++ v ∷ []) r)
publish_lem q c s r v t i =
    let (e, lt, there) = i.knows in
    record {
      waiting = i.waiting ++ v ∷ [];
      order = ap (λ l. l ++ v ∷ []) i.order ∙ append_assoc r i.waiting (v ∷ []);
      represents = rw e (published q (length r) v i.waiting i.represents lt there);
      knows = tt;
      sees = Sees-append q (record q { tail = add64 t 1 }) i.waiting v c refl i.sees;
    }

load_lem :
    (q : ScancodeQueue) (p : Producer) (s r w : List ℕ) (h : ℕ)
    → s ≡ r ++ w
    → Represents q (length r) w
    → Knows q (length r) w p
    → Sees q w (Consumer.not_empty h)
    → Invariant (machine q p (Consumer.slot_loaded h (load_slot q h)) s r)
load_lem q p s r [] h o rep k see = absurd (omega (arith, see.1))
load_lem q p s r (x ∷ w) h o rep k see = record {
  waiting = x ∷ w;
  order = o;
  represents = rep;
  knows = k;
  sees = (see.0, ap (load_slot q) see.0 ∙ (taken q (length r) x w rep).0);
}

take_lem :
    (q : ScancodeQueue) (p : Producer) (s r w : List ℕ) (h v : ℕ)
    → s ≡ r ++ w
    → Represents q (length r) w
    → Knows q (length r) w p
    → Sees q w (Consumer.slot_loaded h v)
    → Invariant (machine (record q { head = add64 h 1 }) p Consumer.idle s (r ++ v ∷ []))
take_lem q p s r [] h v o rep k see = elim see [ ]
take_lem q p s r (x ∷ w) h v o rep k see =
    let (_, after) = taken q (length r) x w rep in
    let (at, same) = see in
    let longer : length (r ++ v ∷ []) ≡ suc (length r) = omega (arith, length-append r (v ∷ [])) in
    record {
      waiting = w;
      order = o ∙ ap (λ y. r ++ y ∷ w) (sym same) ∙ sym (append_assoc r (v ∷ []) w);
      represents = rw (longer, at) after;
      knows =
          rw longer (Knows-taken q (record q { head = add64 h 1 }) (length r) x w p refl refl k);
      sees = tt;
    }

Step-Invariant : (m n : Machine) → Step m n → Invariant m → Invariant n
Step-Invariant _ _ (Step.push_loads_tail v) i = record {
  waiting = i.waiting;
  order = i.order;
  represents = i.represents;
  knows = refl;
  sees = i.sees;
}
Step-Invariant _ _ (Step.push_is_full full) i = record {
  waiting = i.waiting;
  order = i.order;
  represents = i.represents;
  knows = tt;
  sees = i.sees;
}
Step-Invariant m _ (Step.push_has_room room) i = record {
  waiting = i.waiting;
  order = i.order;
  represents = i.represents;
  knows = (i.knows, room_left m.queue (length m.received) i.waiting _ i.represents i.knows room);
  sees = i.sees;
}
Step-Invariant m _ (Step.push_stores_slot {v = v} {t = t}) i =
    store_lem m.queue m.consumer m.sent m.received v t i
Step-Invariant m _ (Step.push_stores_tail {v = v} {t = t}) i =
    publish_lem m.queue m.consumer m.sent m.received v t i
Step-Invariant _ _ Step.pop_loads_head i = record {
  waiting = i.waiting;
  order = i.order;
  represents = i.represents;
  knows = i.knows;
  sees = refl;
}
Step-Invariant _ _ (Step.pop_is_empty e) i = record {
  waiting = i.waiting;
  order = i.order;
  represents = i.represents;
  knows = i.knows;
  sees = tt;
}
Step-Invariant m _ (Step.pop_finds_one e) i = record {
  waiting = i.waiting;
  order = i.order;
  represents = i.represents;
  knows = i.knows;
  sees = (i.sees, some_waiting m.queue (length m.received) i.waiting _ i.represents i.sees e);
}
Step-Invariant m _ Step.pop_loads_slot i =
    load_lem m.queue m.producer m.sent m.received i.waiting _ i.order i.represents i.knows i.sees
Step-Invariant m _ (Step.pop_stores_head {h = h} {v = v}) i =
    take_lem m.queue m.producer m.sent m.received i.waiting h v i.order i.represents i.knows i.sees

start-Invariant : Invariant start
unfolding new
start-Invariant = record {
  waiting = [];
  order = refl;
  represents = record {
    size = refl;
    head_is = refl;
    tail_is = refl;
    room = omega arith;
    held = tt;
  };
  knows = tt;
  sees = tt;
}

reached-Invariant : (m : Machine) → Steps start m → Invariant m
reached-Invariant _ Steps.stay = start-Invariant
reached-Invariant m (Steps.then {n = n} before step) =
    Step-Invariant n m step (reached-Invariant n before)

-- However the loads and stores of `push` and `pop` interleave from an empty queue, the scancodes that
-- `pop` has answered are the first of those that `push` has accepted, in their order, none lost and
-- none twice; and at most 64 are still waiting.
pub interleaving_lem :
    (m : Machine)
    → Steps start m
    → (waiting : List ℕ) × (m.sent ≡ m.received ++ waiting) × (length waiting ≤ 64)
interleaving_lem m steps =
    let i : Invariant m = reached-Invariant m steps in (i.waiting, i.order, i.represents.room)
