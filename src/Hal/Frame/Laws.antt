-- ===== src/Hal/Frame/Laws.antt =====
-- What rounding to frames and comparing ranges mean.
use aion_so.Base.{ℕ, ◌+◌, ◌*◌, ◌≤◌, ◌<◌, ◌≡◌, ◌↔◌, true, max, word_max, some, arith}
use aion_so.Hal.Addr.{PhysAddr, phys}
use aion_so.Hal.Frame.{
  frame_size, PhysRange, end_of, overlaps, contains, from_start_address, containing_address, number,
}

-- The frame that contains an address starts at or below it, less than a frame away, and its start
-- address is accepted by `from_start_address` as that same frame.
pub containing_address_bounds :
    (a : PhysAddr)
    → let f = containing_address a in
      (f.start.as_u64 ≤ a.as_u64)
      × (a.as_u64 < f.start.as_u64 + frame_size)
      × (f.start.as_u64 ≡ number f * frame_size)
      × (from_start_address f.start ≡ some f)
unfolding containing_address number from_start_address
containing_address_bounds a = ground arith

-- A range that is not empty and starts below the last address overlaps a window that is not empty
-- exactly when some address lies in both.
pub overlaps_iff :
    (r : PhysRange) (start end' : ℕ)
    → 0 < r.len
    → r.start.as_u64 < word_max
    → start < end'
    → (overlaps r (phys start) (phys end') ≡ true)
      ↔ ((a : ℕ) × (contains r (phys a) ≡ true) × (start ≤ a) × (a < end'))
unfolding overlaps contains end_of
overlaps_iff r start end' pos below window = (
  (λ h. (max r.start.as_u64 start, ground arith, omega arith, ground arith)),
  λ (a, inside, lo, hi). ground arith,
)
