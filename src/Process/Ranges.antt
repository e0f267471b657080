-- ===== src/Process/Ranges.antt =====
-- The ranges that a process owns, and checking a pointer that arrives from ring 3 against them.
use aion_so.Base.{
  ℕ, Bool, false, ◌&&◌, Option, none, some, List, [], ◌∷◌, if◌then◌else◌, leb, ◌==◌, any,
  checked_add,
}
use aion_so.Hal.Addr.{phys}
use aion_so.Hal.Frame.{PhysRange, end_of}

abbrev pub no_range : PhysRange
no_range = record { start = phys 0; len = 0 }

-- `[PhysRange; MAX_RANGES]` with the empty slots as ranges of no bytes.
unfoldable pub fixed : List (Option PhysRange) → List PhysRange
fixed [] = []
fixed (none ∷ rest) = no_range ∷ fixed rest
fixed (some r ∷ rest) = r ∷ fixed rest

unfoldable pub range_holds : ℕ → ℕ → PhysRange → Bool
range_holds ptr end' r = leb r.start.as_u64 ptr && leb end' (end_of r).as_u64

unfoldable pub owned_by : List PhysRange → ℕ → ℕ → Bool
unfolding range_holds
owned_by ranges ptr len =
    if len == 0
    then false
    else elim (checked_add ptr len) [ none ↦ false | some end' ↦ any (range_holds ptr end') ranges ]

-- `ranges.iter().any(|range| owned_by(&[*range], ptr, len))`
unfoldable pub any_owned_by : List PhysRange → ℕ → ℕ → Bool
unfolding owned_by
any_owned_by ranges ptr len = any (λ r. owned_by (r ∷ []) ptr len) ranges
