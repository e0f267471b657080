-- ===== src/Keyboard/Fifo.antt =====
-- arch/x86_64/src/keyboard.rs: the queue is a bounded queue, first in, first out.
use aion_so.Base.{
  ℕ, suc, ◌+◌, ◌%◌, ◌^◌, ◌≤◌, ◌<◌, ◌≡◌, refl, ap, ◌∙◌, Bool, true, false, Option, none, some, List,
  [], ◌∷◌, ◌++◌, ◌==◌, get_or, set, length, add64, sub64, arith, get_or-set_self, get_or-set_ne,
  length-set, length-append, inl, inr, ◌⊎◌, Bool-cases,
}
use aion_so.Keyboard.{ScancodeQueue, push, pop, is_full, store_slot, load_slot}

-- From the count `from` on, the slots hold the scancodes of the list.
abbrev pub Holds : List ℕ → ℕ → List ℕ → Type 0
Holds slots from [] = Unit {0}
Holds slots from (x ∷ xs) = (get_or slots (from % 64) 0 ≡ x) × Holds slots (suc from) xs

-- A slot past the window is free to write.
pub Holds-set :
    (slots : List ℕ) (from k v : ℕ) (xs : List ℕ)
    → from + length xs ≤ k
    → k < from + 64
    → Holds slots from xs
    → Holds (set slots (k % 64) v) from xs
Holds-set slots from k v [] lo hi h = tt
Holds-set slots from k v (x ∷ xs) lo hi h = (
  get_or-set_ne slots (k % 64) (from % 64) v 0 (omega arith) ∙ h.0,
  Holds-set slots (suc from) k v xs (omega arith) (omega arith) h.1,
)

pub Holds-append :
    (slots : List ℕ) (from v : ℕ) (xs : List ℕ)
    → Holds slots from xs
    → get_or slots ((from + length xs) % 64) 0 ≡ v
    → Holds slots from (xs ++ v ∷ [])
Holds-append slots from v [] h e = (ap (λ k. get_or slots (k % 64) 0) (omega arith) ∙ e, tt)
Holds-append slots from v (x ∷ xs) h e = (
  h.0,
  Holds-append slots (suc from) v xs h.1 (ap (λ k. get_or slots (k % 64) 0) (omega arith) ∙ e),
)

-- The queue after `popped` scancodes have left it, with `waiting` in it.
pub record Represents (q : ScancodeQueue) (popped : ℕ) (waiting : List ℕ) : Type 0 where
  pub size : length q.slots ≡ 64
  pub head_is : q.head ≡ popped % 2 ^ 64
  pub tail_is : q.tail ≡ (popped + length waiting) % 2 ^ 64
  pub room : length waiting ≤ 64
  pub held : Holds q.slots popped waiting

gap : (p l : ℕ) → l ≤ 64 → sub64 ((p + l) % 2 ^ 64) (p % 2 ^ 64) ≡ l
gap p l h = omega arith

pub full_lem :
    (q : ScancodeQueue) (p : ℕ) (w : List ℕ)
    → Represents q p w
    → is_full q.tail q.head ≡ (length w == 64)
unfolding is_full
full_lem q p w r = rw (r.tail_is, r.head_is, gap p (length w) r.room) refl

slot_of : (n : ℕ) → n % 2 ^ 64 % 64 ≡ n % 64
slot_of n = omega arith

-- What the producer writes, and that it is not seen before the tail moves.
pub stored :
    (q : ScancodeQueue) (p v : ℕ) (w : List ℕ)
    → Represents q p w
    → length w < 64
    → Represents (store_slot q q.tail v) p w
      × (get_or (store_slot q q.tail v).slots ((p + length w) % 64) 0 ≡ v)
stored q p v w r lt =
    let at : q.tail % 64 ≡ (p + length w) % 64 =
      ap (λ t. t % 64) r.tail_is ∙ slot_of (p + length w) in
    rw at (
      record {
        size = length-set q.slots _ v ∙ r.size;
        head_is = r.head_is;
        tail_is = r.tail_is;
        room = r.room;
        held = Holds-set q.slots p (p + length w) v w (omega arith) (omega arith) r.held;
      },
      get_or-set_self q.slots _ v 0 (omega (arith, r.size)),
    )

pub published :
    (q : ScancodeQueue) (p v : ℕ) (w : List ℕ)
    → Represents q p w
    → length w < 64
    → get_or q.slots ((p + length w) % 64) 0 ≡ v
    → Represents (record q { tail = add64 q.tail 1 }) p (w ++ v ∷ [])
published q p v w r lt e = record {
  size = r.size;
  head_is = r.head_is;
  tail_is = omega (arith, r.tail_is, length-append w (v ∷ []));
  room = omega (arith, length-append w (v ∷ []));
  held = Holds-append q.slots p v w r.held e;
}

pub taken :
    (q : ScancodeQueue) (p v : ℕ) (w : List ℕ)
    → Represents q p (v ∷ w)
    → (load_slot q q.head ≡ v) × Represents (record q { head = add64 q.head 1 }) (suc p) w
taken q p v w r = (
  ap (λ h. get_or q.slots (h % 64) 0) r.head_is
      ∙ ap (λ k. get_or q.slots k 0) (slot_of p)
      ∙ r.held.0,
  record {
    size = r.size;
    head_is = omega (arith, r.head_is);
    tail_is = r.tail_is ∙ ap (λ k. k % 2 ^ 64) (omega arith);
    room = omega (arith, r.room);
    held = r.held.1;
  },
)

pub empty_lem :
    (q : ScancodeQueue) (p : ℕ) (w : List ℕ)
    → Represents q p w
    → (q.head == q.tail) ≡ (length w == 0)
empty_lem q p w r = elim (Bool-cases (length w == 0)) [
  | inl e ↦ ground (arith, e, r.head_is, r.tail_is)
  | inr e ↦ ground (arith, e, r.head_is, r.tail_is, r.room)
]

abbrev pub Pushed : ScancodeQueue → ℕ → List ℕ → ℕ → ScancodeQueue × Bool → Type 0
Pushed q p w v r =
    ((length w ≡ 64) × (r ≡ (q, false)))
    ⊎ ((length w < 64) × (r.1 ≡ true) × Represents r.0 p (w ++ v ∷ []))

abbrev pub Popped : ScancodeQueue → ℕ → List ℕ → ScancodeQueue × Option ℕ → Type 0
Popped q p [] r = r ≡ (q, none)
Popped q p (v ∷ w) r = (r.1 ≡ some v) × Represents r.0 (suc p) w

-- A queue that holds at most 64 scancodes is a bounded queue: `push` is refused, and changes nothing,
-- exactly when 64 are waiting, and else appends the scancode; `pop` answers `none`, and changes
-- nothing, exactly when none is waiting, and else takes the oldest. The counters may have wrapped.
pub queue_lem :
    (q : ScancodeQueue) (p : ℕ) (w : List ℕ) (v : ℕ)
    → Represents q p w
    → Pushed q p w v (push q v) × Popped q p w (pop q)
unfolding push pop
queue_lem q p w v r = (pushes, pops w r)
  where
    pushes : Pushed q p w v (push q v)
    pushes = elim (Bool-cases (length w == 64)) [
      | inl e ↦ rw (full_lem q p w r, e) (inl (ground (arith, e), refl))
      | inr e ↦
          let lt : length w < 64 = ground (arith, e, r.room) in
          let (kept, there) = stored q p v w r lt in
          rw (full_lem q p w r, e)
            (inr (lt, refl, published (store_slot q q.tail v) p v w kept lt there))
    ]

    pops : (w : List ℕ) → Represents q p w → Popped q p w (pop q)
    pops [] r = rw (empty_lem q p [] r) refl
    pops (x ∷ w) r =
        let (e, after) = taken q p x w r in
        let some_left : (q.head == q.tail) ≡ false = empty_lem q p (x ∷ w) r ∙ ground arith in
        rw some_left (ap some e, after)
