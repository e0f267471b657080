-- ===== src/Process/Checking.antt =====
-- What the ownership check of a pointer means.
use aion_so.Base.{
  ℕ, zero, suc, ◌+◌, ◌≤◌, ◌<◌, ◌≡◌, ◌↔◌, inl, inr, refl, true, some, List, [], ◌∷◌, arith, any,
  get_elem?, word_size, Bool-cases,
}
use aion_so.Hal.Addr.{phys}
use aion_so.Hal.Frame.{PhysRange, end_of, contains}
use aion_so.Process.Ranges.{range_holds, owned_by}

-- The range is one of the list.
abbrev pub Among : PhysRange → List PhysRange → Type 0
Among r rs = (i : ℕ) × (get_elem? rs i ≡ some r)

any-Among :
    (ptr end' : ℕ) (rs : List PhysRange)
    → any (range_holds ptr end') rs ≡ true
    → (r : PhysRange) × Among r rs × (range_holds ptr end' r ≡ true)
any-Among ptr end' [] h = absurd (ground arith)
any-Among ptr end' (r ∷ rs) h = elim (Bool-cases (range_holds ptr end' r)) [
  | inl here ↦ (r, (0, refl), here)
  | inr later ↦
      let (s, (i, at), holds) = any-Among ptr end' rs (ground arith) in (s, (suc i, at), holds)
]

Among-any :
    (ptr end' : ℕ) (r : PhysRange) (rs : List PhysRange) (i : ℕ)
    → get_elem? rs i ≡ some r
    → range_holds ptr end' r ≡ true
    → any (range_holds ptr end') rs ≡ true
Among-any ptr end' r [] i at h = absurd (ground arith)
Among-any ptr end' r (s ∷ rs) zero at h = let e : s ≡ r = ground arith in rw e (ground arith)
Among-any ptr end' r (s ∷ rs) (suc i) at h = ground (arith, Among-any ptr end' r rs i at h)

-- The check accepts a buffer exactly when it is not empty, does not run past the last address, and
-- lies whole in one of the ranges.
pub owned_by_iff :
    (rs : List PhysRange) (ptr len : ℕ)
    → (owned_by rs ptr len ≡ true) ↔ (
        (0 < len)
        × (ptr + len < word_size)
        × ((r : PhysRange) × Among r rs × (r.start.as_u64 ≤ ptr) × (ptr + len ≤ (end_of r).as_u64)))
unfolding owned_by range_holds
owned_by_iff rs ptr len = (accepted, taken)
  where
    accepted :
        owned_by rs ptr len ≡ true
        → (0 < len)
          × (ptr + len < word_size)
          × ((r : PhysRange) × Among r rs
              × (r.start.as_u64 ≤ ptr)
              × (ptr + len ≤ (end_of r).as_u64))
    accepted h =
        let some' : (0 < len)
            × (ptr + len < word_size)
            × (any (range_holds ptr (ptr + len)) rs ≡ true) =
          ground arith in
        let (r, at, holds) = any-Among ptr (ptr + len) rs some'.2 in
        (some'.0, some'.1, (r, at, ground arith, ground arith))

    taken :
        (0 < len)
          × (ptr + len < word_size)
          × ((r : PhysRange) × Among r rs
              × (r.start.as_u64 ≤ ptr)
              × (ptr + len ≤ (end_of r).as_u64))
        → owned_by rs ptr len ≡ true
    taken (pos, fits, (r, (i, at), lo, hi)) = ground (arith, Among-any ptr (ptr + len) r rs i at)

-- Every byte of an accepted buffer lies in one of the ranges.
pub owned_by-contains :
    (rs : List PhysRange) (ptr len a : ℕ)
    → owned_by rs ptr len ≡ true
    → ptr ≤ a
    → a < ptr + len
    → (r : PhysRange) × Among r rs × (contains r (phys a) ≡ true)
unfolding contains
owned_by-contains rs ptr len a h lo hi =
    let (pos, fits, (r, at, from, to)) = (owned_by_iff rs ptr len).0 h in (r, at, ground arith)
