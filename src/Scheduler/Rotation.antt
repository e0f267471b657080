-- ===== src/Scheduler/Rotation.antt =====
-- Round robin: who is next, and that nobody who can run waits for ever.
use native.Mathlib.Nat.{mod-lt, mod-eq_of_lt, mod-eq-sub-mod}
use native.Mathlib.Decide.{dec_lt}
use mathlib.Core.Bool.{false≢true}
use aion_so.Base.{
  ltb, ℕ, zero, suc, ◌+◌, ◌-◌, ◌%◌, ◌≤◌, ◌<◌, ◌≡◌, ◌≢◌, ◌⊎◌, inl, inr, refl, sym, ap, ◌∙◌, true,
  false, Option, none, some, List, if◌then◌else◌, ◌==◌, ==→eq, ==→ne, arith, length, Bool-cases,
}
use aion_so.Scheduler.States.{State, runs_at, find_from, next_runnable}

-- `k` is the `d`-th place after `from`, it can run, and nothing between can.
record IsNext (states : List (Option State)) (from low k : ℕ) : Type 0 where
  steps : ℕ
  from_low : low ≤ steps
  at : k ≡ (from + steps) % length states
  runs : runs_at states k ≡ true
  skipped : (d : ℕ) → low ≤ d → d < steps → runs_at states ((from + d) % length states) ≡ false

abbrev Search : List (Option State) → ℕ → ℕ → ℕ → Option ℕ → Type 0
Search states from low high r =
    ((r ≡ none)
      × ((d : ℕ) → low ≤ d → d < high → runs_at states ((from + d) % length states) ≡ false))
    ⊎ ((k : ℕ) × (r ≡ some k) × (v : IsNext states from low k) × (v.steps < high))

find_from-Search :
    (n step : ℕ) (states : List (Option State)) (from : ℕ)
    → Search states from step (step + n) (find_from n step states from)
unfolding find_from
find_from-Search zero step states from = inl (refl, λ d lo hi. absurd (omega arith))
find_from-Search (suc n) step states from =
    elim (Bool-cases (runs_at states ((from + step) % length states))) [
      | inl runs ↦ rw runs (
          inr (
            (from + step) % length states,
            refl,
            record {
              steps = step;
              from_low = omega arith;
              at = refl;
              runs = runs;
              skipped = λ d lo hi. absurd (omega arith);
            },
            omega arith,
          ))
      | inr idle ↦ rw idle (elim (find_from-Search n (step + 1) states from) [
        | inl (e, rest) ↦ inl (e, λ d lo hi. skip step d idle (λ lo'. rest d lo' (omega arith)) lo)
        | inr (k, e, v, hi) ↦ inr (
          k,
          e,
          record {
            steps = v.steps;
            from_low = omega (arith, v.from_low);
            at = v.at;
            runs = v.runs;
            skipped = λ d lo lt. skip step d idle (λ lo'. v.skipped d lo' lt) lo;
          },
          omega (arith, hi),
        )
      ])
    ]
  where
    skip :
        (step d : ℕ)
        → runs_at states ((from + step) % length states) ≡ false
        → (step + 1 ≤ d → runs_at states ((from + d) % length states) ≡ false)
        → step ≤ d
        → runs_at states ((from + d) % length states) ≡ false
    skip step d idle later lo = elim (Bool-cases (step == d)) [
      | inl same ↦
          ap (λ t. runs_at states ((from + t) % length states)) (sym (==→eq step d same)) ∙ idle
      | inr other ↦ later (omega (arith, ==→ne step d other))
    ]

-- How many places round the circle of `n` it is from one to another: a whole turn to oneself.
abbrev pub distance : ℕ → ℕ → ℕ → ℕ
distance n from to = if ltb from to then to - from else to + n - from

distance_bounds :
    (n from to : ℕ) → from < n → to < n → (1 ≤ distance n from to) × (distance n from to ≤ n)
distance_bounds n from to hf ht = ground arith

from-add-distance : (n from to : ℕ) → from < n → to < n → (from + distance n from to) % n ≡ to
from-add-distance n from to hf ht = elim (Bool-cases (ltb from to)) [
  | inl up ↦ let e : from + distance n from to ≡ to = ground arith in rw e (mod-eq_of_lt ht)
  | inr down ↦
      let e : from + distance n from to ≡ to + n = ground arith in
      let back : to + n - n ≡ to = omega arith in
      rw e (
        mod-eq-sub-mod {n = to + n} {m = n} (omega arith)
        ∙ (ap (λ t. t % n) back ∙ mod-eq_of_lt ht))
]

-- A number of steps within one turn is the distance to where it leads.
distance-of_steps : (n from d : ℕ) → from < n → 1 ≤ d → d ≤ n → distance n from ((from + d) % n) ≡ d
distance-of_steps n from d hf lo hi = elim (dec_lt (from + d) n) [
  | yes p ↦ ground (arith, mod-eq_of_lt {n = from + d} {m = n} p)
  | no p ↦ ground (
    arith,
    mod-eq-sub-mod {n = from + d} {m = n} (omega arith),
    mod-eq_of_lt {n = from + d - n} {m = n} (omega arith),
  )
]

-- `next_runnable` answers the first process after `from`, going round and coming to `from` last,
-- that can run; it answers `none` exactly when no process can.
pub next_runnable_lem :
    (states : List (Option State)) (from : ℕ)
    → from < length states
    → ((next_runnable states from ≡ none)
        × ((j : ℕ) → j < length states → runs_at states j ≡ false))
      ⊎ ((k : ℕ) × (next_runnable states from ≡ some k)
          × (k < length states)
          × (runs_at states k ≡ true)
          × ((j : ℕ)
              → j < length states
              → runs_at states j ≡ true
              → distance (length states) from k ≤ distance (length states) from j))
unfolding next_runnable
next_runnable_lem states from hf = elim (find_from-Search (length states) 1 states from) [
  | inl (e, rest) ↦ inl (
    e,
    λ j hj.
        ap (runs_at states) (sym (from-add-distance (length states) from j hf hj))
        ∙ rest (distance (length states) from j) (distance_bounds (length states) from j hf hj).0
            (omega (arith, distance_bounds (length states) from j hf hj)),
  )
  | inr (k, e, v, hi) ↦
      let there : distance (length states) from k ≡ v.steps =
        ap (distance (length states) from) v.at
        ∙ distance-of_steps (length states) from v.steps hf v.from_low (omega arith) in
      inr (
        k,
        e,
        rw v.at (mod-lt (from + v.steps) (omega arith)),
        v.runs,
        λ j hj runs. nearest states from k j v.steps hf hj runs there v.skipped,
      )
]
  where
    nearest :
        (states : List (Option State)) (from k j steps : ℕ)
        → from < length states
        → j < length states
        → runs_at states j ≡ true
        → distance (length states) from k ≡ steps
        → ((d : ℕ) → 1 ≤ d → d < steps → runs_at states ((from + d) % length states) ≡ false)
        → distance (length states) from k ≤ distance (length states) from j
    nearest states from k j steps hf hj runs there skipped =
        let d : ℕ = distance (length states) from j in
        elim (dec_lt d steps) [
          | yes before ↦ absurd (
              false≢true (
                sym (skipped d (distance_bounds (length states) from j hf hj).0 before)
                ∙ (ap (runs_at states) (from-add-distance (length states) from j hf hj) ∙ runs)))
          | no after ↦ omega arith
        ]

-- Whose turn it is after `n` switches from `from`, while no process changes its state.
pub turn : ℕ → List (Option State) → ℕ → Option ℕ
turn zero states from = some from
turn (suc n) states from = elim (next_runnable states from) [
  | none ↦ none
  | some k ↦ turn n states k
]

turn-some :
    (n : ℕ) (states : List (Option State)) (from k : ℕ)
    → next_runnable states from ≡ some k
    → turn (suc n) states from ≡ turn n states k
unfolding turn
turn-some n states from k e = ground arith

turn_zero : (states : List (Option State)) (k j : ℕ) → k ≡ j → turn 0 states k ≡ some j
unfolding turn
turn_zero states k j e = ap some e

turn-reaches :
    (fuel : ℕ) (states : List (Option State)) (from j : ℕ)
    → from < length states
    → j < length states
    → runs_at states j ≡ true
    → distance (length states) from j ≤ fuel
    → (n : ℕ) × (1 ≤ n) × (n ≤ distance (length states) from j) × (turn n states from ≡ some j)
turn-reaches zero states from j hf hj runs h =
    absurd (omega (arith, distance_bounds (length states) from j hf hj))
turn-reaches (suc fuel) states from j hf hj runs h = elim (next_runnable_lem states from hf) [
  | inl (_, nobody) ↦ absurd (false≢true (sym (nobody j hj) ∙ runs))
  | inr (k, e, hk, _, first) ↦ elim (Bool-cases (k == j)) [
    | inl same ↦ (
      1,
      omega arith,
      (distance_bounds (length states) from j hf hj).0,
      turn-some 0 states from k e ∙ turn_zero states k j (==→eq k j same),
    )
    | inr other ↦
        let shorter : (distance (length states) k j + 1 ≤ distance (length states) from j) =
          closer (length states) from k j hf hk hj (==→ne k j other) (first j hj runs) in
        let (n, lo, hi, there) = turn-reaches fuel states k j hk hj runs (omega arith) in
        (suc n, omega arith, omega arith, turn-some n states from k e ∙ there)
  ]
]
  where
    closer :
        (n from k j : ℕ)
        → from < n
        → k < n
        → j < n
        → k ≢ j
        → distance n from k ≤ distance n from j
        → distance n k j + 1 ≤ distance n from j
    closer n from k j hf hk hj ne le = ground arith

-- Whoever has the CPU, a process that can run gets it after at least one and at most as many
-- switches as there are slots, if no process changes its state meanwhile.
pub turn_comes :
    (states : List (Option State)) (from j : ℕ)
    → from < length states
    → j < length states
    → runs_at states j ≡ true
    → (n : ℕ) × (1 ≤ n) × (n ≤ length states) × (turn n states from ≡ some j)
turn_comes states from j hf hj runs =
    let (n, lo, hi, there) =
      turn-reaches (length states) states from j hf hj runs
        (distance_bounds (length states) from j hf hj).1 in
    (n, lo, omega (arith, distance_bounds (length states) from j hf hj), there)
