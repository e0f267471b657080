-- ===== src/Process/OpenFiles/Laws.antt =====
-- Descriptors: what `open`, `at` and `close` do to one another.
use aion_so.Base.{
  ℕ, zero, suc, ◌+◌, ◌<◌, ◌≡◌, ◌≢◌, ◌⊎◌, ◌↔◌, inl, inr, refl, sym, ap, ◌∙◌, true, false, Option,
  none, some, List, [], ◌∷◌, arith, length, set, get_elem?, length-set, get_elem?-set_self,
  get_elem?-set_ne, Option-cases,
}
use mathlib.Core.Bool.{false≢true}
use aion_so.Process.OpenFiles.{OpenFile, Table, first_free, open_file, file_at, close, count}

-- The index that `first_free` finds is free and everything before it is taken.
pub first_free_lem {ℓ} :
    {A : Type ℓ} (t : List (Option A)) (i : ℕ)
    → first_free t ≡ some i
    → (i < length t)
      × (get_elem? t i ≡ some none)
      × ((j : ℕ) → j < i → (a : A) × (get_elem? t j ≡ some (some a)))
unfolding first_free
first_free_lem [] i h = absurd (cc)
first_free_lem (none ∷ rest) i h =
    let e : i ≡ 0 = ground arith in rw e (omega arith, refl, λ j lt. absurd (omega arith))
first_free_lem {A} (some a ∷ rest) i h = elim (Option-cases (first_free rest)) [
  | inl e ↦ absurd (ground arith)
  | inr (k, e) ↦
      let at : i ≡ suc k = ground arith in
      let (lt, free, taken) = first_free_lem rest k e in
      rw at (omega arith, free, λ j. before k taken j)
]
  where
    before :
        (k : ℕ)
        → ((j : ℕ) → j < k → (b : A) × (get_elem? rest j ≡ some (some b)))
        → (j : ℕ) → j < suc k
        → (b : A) × (get_elem? (some a ∷ rest) j ≡ some (some b))
    before k taken zero lt = (a, refl)
    before k taken (suc j) lt = taken j (omega arith)

first_free-none {ℓ} :
    {A : Type ℓ} (t : List (Option A)) (j : ℕ)
    → first_free t ≡ none
    → j < length t
    → (a : A) × (get_elem? t j ≡ some (some a))
unfolding first_free
first_free-none [] j h lt = absurd (omega arith)
first_free-none (none ∷ rest) j h lt = absurd (ground arith)
first_free-none (some a ∷ rest) zero h lt = (a, refl)
first_free-none (some a ∷ rest) (suc j) h lt = elim (Option-cases (first_free rest)) [
  | inl e ↦ first_free-none rest j e (omega arith)
  | inr (k, e) ↦ absurd (ground arith)
]

count-set :
    (t : Table) (i : ℕ) (f : OpenFile)
    → get_elem? t i ≡ some none
    → count (set t i (some f)) ≡ count t + 1
unfolding count
count-set [] i f h = absurd (ground arith)
count-set (none ∷ rest) zero f h = omega arith
count-set (some g ∷ rest) zero f h = absurd (ground arith)
count-set (none ∷ rest) (suc i) f h = count-set rest i f h
count-set (some g ∷ rest) (suc i) f h = omega (arith, count-set rest i f h)

-- The two answers of `open`.
abbrev pub Opened : Table → OpenFile → Option ℕ × Table → Type 0
Opened t f (r, t') =
    ((r ≡ none) × (t' ≡ t) × ((j : ℕ) → j < length t → (g : OpenFile) × (file_at t j ≡ some g)))
    ⊎ ((i : ℕ) × (r ≡ some i)
        × (i < length t)
        × (file_at t i ≡ none)
        × ((j : ℕ) → j < i → (g : OpenFile) × (file_at t j ≡ some g))
        × (file_at t' i ≡ some f)
        × ((j : ℕ) → i ≢ j → file_at t' j ≡ file_at t j)
        × (length t' ≡ length t)
        × (count t' ≡ count t + 1))

at_taken :
    (t : Table) (j : ℕ)
    → (g : OpenFile) × (get_elem? t j ≡ some (some g))
    → (g : OpenFile) × (file_at t j ≡ some g)
unfolding file_at
at_taken t j (g, e) = (g, ground arith)

at_none : (t : Table) (i : ℕ) → get_elem? t i ≡ some none → file_at t i ≡ none
unfolding file_at
at_none t i h = ground arith

file_at-set : (t : Table) (i : ℕ) (o : Option OpenFile) → i < length t → file_at (set t i o) i ≡ o
unfolding file_at
file_at-set t i o lt = ground (arith, get_elem?-set_self t i o lt)

file_at-set_ne :
    (t : Table) (i j : ℕ) (o : Option OpenFile) → i ≢ j → file_at (set t i o) j ≡ file_at t j
unfolding file_at
file_at-set_ne t i j o ne = ground (arith, get_elem?-set_ne t i j o ne)

-- `open` answers `none` only when every slot is taken, and then changes nothing. Otherwise the
-- descriptor was closed and every smaller one is open; it now names the file, every other
-- descriptor names what it named, and one more file is open.
pub open_lem : (t : Table) (f : OpenFile) → Opened t f (open_file t f)
unfolding open_file
open_lem t f = elim (Option-cases (first_free t)) [
  | inl e ↦ rw (e, open_file) (inl (refl, refl, λ j lt. at_taken t j (first_free-none t j e lt)))
  | inr (i, e) ↦
      let (lt, free, taken) = first_free_lem t i e in
      rw (e, open_file)
        (inr (
          i,
          refl,
          lt,
          at_none t i free,
          (λ j h. at_taken t j (taken j h)),
          file_at-set t i (some f) lt,
          (λ j ne. file_at-set_ne t i j (some f) ne),
          length-set t i (some f),
          count-set t i f free,
        ))
]

slot-lt : (t : Table) (i : ℕ) (f : OpenFile) → file_at t i ≡ some f → i < length t
unfolding file_at
slot-lt [] i f h = absurd (ground arith)
slot-lt (x ∷ t) zero f h = omega arith
slot-lt (x ∷ t) (suc i) f h = omega (arith, slot-lt t i f h)

some_file : (f : OpenFile) → some f ≡ none → ⊥
some_file f h = cc

close-none : (t : Table) (d : ℕ) → file_at t d ≡ none → close t d ≡ (false, t)
unfolding close file_at
close-none t d h = ground arith

close-some :
    (t : Table) (d : ℕ) (f : OpenFile) → file_at t d ≡ some f → close t d ≡ (true, set t d none)
unfolding close file_at
close-some t d f h = ground arith

-- `close` answers whether the descriptor was open, leaves it closed, and changes no other.
pub close_lem :
    (t : Table) (d : ℕ)
    → let (was_open, t') = close t d in
      ((was_open ≡ true) ↔ (file_at t d ≢ none))
      × (file_at t' d ≡ none)
      × ((j : ℕ) → d ≢ j → file_at t' j ≡ file_at t j)
close_lem t d = elim (Option-cases (file_at t d)) [
  | inl e ↦
      rw (close-none t d e) (((λ h. absurd (false≢true h)), (λ h. absurd (h e))), e, λ j ne. refl)
  | inr (f, e) ↦ rw (close-some t d f e) (
    ((λ _ z. some_file f (sym e ∙ z)), (λ _. refl)),
    file_at-set t d none (slot-lt t d f e),
    λ j ne. file_at-set_ne t d j none ne,
  )
]

set-set_back {ℓ} :
    {A : Type ℓ} (t : List A) (i : ℕ) (a b : A) → get_elem? t i ≡ some a → set (set t i b) i a ≡ t
set-set_back [] i a b h = refl
set-set_back (x ∷ t) zero a b h = ap (λ y. y ∷ t) (ground arith)
set-set_back (x ∷ t) (suc i) a b h = ap (◌∷◌ x) (set-set_back t i a b h)

-- A descriptor that `open` handed out can be closed, and then the table is as it was.
pub close-open :
    (t : Table) (f : OpenFile) (d : ℕ) (t' : Table)
    → open_file t f ≡ (some d, t')
    → close t' d ≡ (true, t)
unfolding open_file
close-open t f d t' h = elim (Option-cases (first_free t)) [
  | inl e ↦ absurd (ground arith)
  | inr (i, e) ↦
      let (lt, free, _) = first_free_lem t i e in
      let at : i ≡ d = ground arith in
      let after : set t i (some f) ≡ t' = ground arith in
      rw (← at, ← after)
        (close-some (set t i (some f)) i f (file_at-set t i (some f) lt)
          ∙ ap (λ (s : Table). (true, s)) (set-set_back t i none (some f) free))
]
