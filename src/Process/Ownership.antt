-- ===== src/Process/Ownership.antt =====
-- What a process may write it owns, while it is being built.
use aion_so.Base.{
  ℕ, zero, suc, ◌+◌, ◌≤◌, ◌<◌, ◌≡◌, ◌≢◌, ◌⊎◌, inl, inr, refl, sym, ◌∙◌, Bool, true, false, Option,
  none, some, List, [], ◌∷◌, if◌then◌else◌, ◌==◌, ==→eq, ==→ne, arith, length, set, any, replicate,
  get_elem?, length-set, get_elem?-set_self, get_elem?-set_ne, Bool-cases, add64,
}
use aion_so.Hal.Frame.{PhysRange, PhysFrame, end_of}
use aion_so.Memory.FrameAllocator.Purposes.{FramePurpose}
use aion_so.Process.Ranges.{fixed, range_holds, owned_by}
use aion_so.Process.Building.{Building, ok, max_ranges, max_frames, new, own, took}

-- A list of slots whose ranges another list has at the same places.
abbrev Within : List (Option PhysRange) → List (Option PhysRange) → Type 0
Within w o = (i : ℕ) (r : PhysRange) → get_elem? w i ≡ some (some r) → get_elem? o i ≡ some (some r)

-- The invariant of a process being built.
pub record IsValid (b : Building) : Type 0 where
  pub owned_size : length b.owned ≡ max_ranges
  pub writable_size : length b.writable ≡ max_ranges
  pub frames_size : length b.frames ≡ max_frames
  pub ranges_le : b.ranges ≤ max_ranges
  pub taken_le : b.taken ≤ max_frames
  pub within : Within b.writable b.owned
  pub unused : (i : ℕ) (r : PhysRange) → b.ranges ≤ i → get_elem? b.writable i ≡ some (some r) → ⊥

empty_slots : (n i : ℕ) (r : PhysRange) → get_elem? (replicate n none) i ≡ some (some r) → ⊥
empty_slots zero i r h = cc
empty_slots (suc n) zero r h = ground arith
empty_slots (suc n) (suc i) r h = empty_slots n i r h

pub new-IsValid : (space : ℕ) → IsValid (new space)
unfolding new
new-IsValid space = record {
  owned_size = refl;
  writable_size = refl;
  frames_size = refl;
  ranges_le = omega arith;
  taken_le = omega arith;
  within = λ i r h. absurd (empty_slots 9 i r h);
  unused = λ i r le h. empty_slots 9 i r h;
}

abbrev record_range : Building → PhysRange → Bool → Building
record_range b range writable = record b {
  owned = set b.owned b.ranges (some range);
  writable = if writable then set b.writable b.ranges (some range) else b.writable;
  ranges = add64 b.ranges 1;
}

module _ (b : Building) (range : PhysRange) (v : IsValid b) (room : b.ranges ≢ max_ranges) where
  within_set :
      (flag : Bool) (i : ℕ) (r : PhysRange)
      → get_elem? (if flag then set b.writable b.ranges (some range) else b.writable) i
        ≡ some (some r)
      → get_elem? (set b.owned b.ranges (some range)) i ≡ some (some r)
  within_set true i r h = elim (Bool-cases (b.ranges == i)) [
    | inl same ↦
        let e : b.ranges ≡ i = ==→eq b.ranges i same in
        ground (
          arith,
          get_elem?-set_self b.owned b.ranges (some range)
              (omega (arith, v.owned_size, v.ranges_le)),
          get_elem?-set_self b.writable b.ranges (some range)
              (omega (arith, v.writable_size, v.ranges_le)),
        )
    | inr other ↦
        let ne : b.ranges ≢ i = ==→ne b.ranges i other in
        get_elem?-set_ne b.owned b.ranges i (some range) ne
        ∙ v.within i r (sym (get_elem?-set_ne b.writable b.ranges i (some range) ne) ∙ h)
  ]
  within_set false i r h = elim (Bool-cases (b.ranges == i)) [
    | inl same ↦ absurd (v.unused i r (ground arith) h)
    | inr other ↦
        get_elem?-set_ne b.owned b.ranges i (some range) (==→ne b.ranges i other) ∙ v.within i r h
  ]

  unused_set :
      (flag : Bool) (i : ℕ) (r : PhysRange)
      → b.ranges + 1 ≤ i
      → get_elem? (if flag then set b.writable b.ranges (some range) else b.writable) i
        ≡ some (some r)
      → ⊥
  unused_set true i r le h =
      v.unused i r (omega arith)
        (sym (get_elem?-set_ne b.writable b.ranges i (some range) (omega arith)) ∙ h)
  unused_set false i r le h = v.unused i r (omega arith) h

  size_set :
      (flag : Bool)
      → length (if flag then set b.writable b.ranges (some range) else b.writable) ≡ max_ranges
  size_set true = length-set b.writable b.ranges (some range) ∙ v.writable_size
  size_set false = v.writable_size

  record_range-IsValid : (flag : Bool) → IsValid (record_range b range flag)
  record_range-IsValid flag = record {
    owned_size = length-set b.owned b.ranges (some range) ∙ v.owned_size;
    writable_size = size_set flag;
    frames_size = v.frames_size;
    ranges_le = omega (arith, v.ranges_le);
    taken_le = v.taken_le;
    within = within_set flag;
    unused = λ i r le h. unused_set flag i r (omega (arith, v.ranges_le)) h;
  }

-- Recording a range keeps what a process may write among what it owns, and fails, changing
-- nothing, exactly when the table of ranges is full.
pub own_lem :
    (b : Building) (range : PhysRange) (writable : Bool)
    → IsValid b
    → let (r, b') = own b range writable in
      IsValid b'
      × (((r ≡ ok)
            × (b.ranges < max_ranges)
            × (b'.ranges ≡ b.ranges + 1)
            × (get_elem? b'.owned b.ranges ≡ some (some range)))
          ⊎ ((b.ranges ≡ max_ranges) × (b' ≡ b) × (r ≢ ok)))
unfolding own
own_lem b range writable v = elim (Bool-cases (b.ranges == max_ranges)) [
  | inl full ↦ rw full (v, inr (==→eq _ _ full, refl, λ h. absurd (cc)))
  | inr room ↦ rw room (
    record_range-IsValid b range v (==→ne _ _ room) writable,
    inl (
      refl,
      omega (arith, v.ranges_le, ==→ne _ _ room),
      omega (arith, v.ranges_le),
      get_elem?-set_self b.owned b.ranges (some range)
          (omega (arith, v.owned_size, v.ranges_le, ==→ne _ _ room)),
    ),
  )
]

pub took_lem :
    (b : Building) (frame : PhysFrame) (purpose : FramePurpose)
    → IsValid b
    → IsValid (took b frame purpose).1
unfolding took
took_lem b frame purpose v = elim (Bool-cases (b.taken == max_frames)) [
  | inl full ↦ rw full v
  | inr room ↦ rw room (record {
    owned_size = v.owned_size;
    writable_size = v.writable_size;
    frames_size = length-set b.frames b.taken (some (frame, purpose)) ∙ v.frames_size;
    ranges_le = v.ranges_le;
    taken_le = omega (arith, v.taken_le, ==→ne _ _ room);
    within = v.within;
    unused = v.unused;
  })
]

-- The check through `fixed` accepts for writing only what it accepts for reading.
any-Within :
    (ptr end' : ℕ) (w o : List (Option PhysRange))
    → 0 < end'
    → Within w o
    → any (range_holds ptr end') (fixed w) ≡ true
    → any (range_holds ptr end') (fixed o) ≡ true
unfolding fixed range_holds end_of
any-Within ptr end' [] o pos inside h = absurd (ground arith)
any-Within ptr end' (none ∷ w) [] pos inside h =
    any-Within ptr end' w [] pos (λ i r e. inside (suc i) r e) (ground arith)
any-Within ptr end' (none ∷ w) (none ∷ o) pos inside h =
    ground (arith, any-Within ptr end' w o pos (λ i r e. inside (suc i) r e))
any-Within ptr end' (none ∷ w) (some s ∷ o) pos inside h =
    ground (arith, any-Within ptr end' w o pos (λ i r e. inside (suc i) r e))
any-Within ptr end' (some r ∷ w) [] pos inside h = absurd (ground (arith, inside 0 r refl))
any-Within ptr end' (some r ∷ w) (none ∷ o) pos inside h = absurd (ground (arith, inside 0 r refl))
any-Within ptr end' (some r ∷ w) (some s ∷ o) pos inside h =
    let e : s ≡ r = ground (arith, inside 0 r refl) in
    rw e (ground (arith, any-Within ptr end' w o pos (λ i q e'. inside (suc i) q e')))

-- On a valid record of a process being built, every buffer that the check accepts against the
-- writable ranges is one that it accepts against the owned ones.
pub writable-owned :
    (b : Building) (ptr len : ℕ)
    → IsValid b
    → owned_by (fixed b.writable) ptr len ≡ true
    → owned_by (fixed b.owned) ptr len ≡ true
unfolding owned_by
writable-owned b ptr len v h = ground (arith, any-Within ptr (ptr + len) b.writable b.owned)
