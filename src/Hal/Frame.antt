-- ===== src/Hal/Frame.antt =====
-- hal/src/frame.rs: page frames and ranges of physical addresses.
pub mod Laws
use aion_so.Base.{ℕ, ◌/◌, Bool, ◌&&◌, Option, some, none, if◌then◌else◌, ltb, leb, word_max}
use aion_so.Hal.Addr.{PhysAddr, phys, is_aligned_to, align_down, checked_add_addr}

abbrev pub frame_size : ℕ
frame_size = 4096

pub record PhysRange : Type 0 where
  pub start : PhysAddr
  pub len : ℕ

abbrev range_end : Option PhysAddr → PhysAddr
range_end (some e) = e
range_end none = phys word_max

-- The first address past the range, saturating.
unfoldable pub end_of : PhysRange → PhysAddr
unfolding checked_add_addr
end_of r = range_end (checked_add_addr r.start r.len)

unfoldable pub contains : PhysRange → PhysAddr → Bool
unfolding end_of
contains r addr = leb r.start.as_u64 addr.as_u64 && ltb addr.as_u64 (end_of r).as_u64

pub overlaps : PhysRange → PhysAddr → PhysAddr → Bool
unfolding end_of
overlaps r start end' = ltb start.as_u64 (end_of r).as_u64 && ltb r.start.as_u64 end'.as_u64

pub record PhysFrame : Type 0 where
  pub start : PhysAddr

unfoldable pub from_start_address : PhysAddr → Option PhysFrame
unfolding is_aligned_to
from_start_address addr =
    if is_aligned_to addr frame_size then some (record { start = addr }) else none

unfoldable pub containing_address : PhysAddr → PhysFrame
unfolding align_down
containing_address addr = record { start = align_down addr frame_size }

unfoldable pub number : PhysFrame → ℕ
number f = f.start.as_u64 / frame_size
