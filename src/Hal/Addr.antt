-- ===== src/Hal/Addr.antt =====
-- hal/src/addr.rs: physical and virtual addresses, two types so that they cannot be mixed up.
-- The macro `address_type!` writes the same methods twice; they are stated over the number that
-- both wrap, and `PhysAddr` and `VirtAddr` keep the numbers apart.
use aion_so.Base.{ℕ, ◌-◌, ◌%◌, Bool, Option, some, none, if◌then◌else◌, ltb, ◌==◌, ◌+◌, word_size}

pub record PhysAddr : Type 0 where
  pub as_u64 : ℕ

pub record VirtAddr : Type 0 where
  pub as_u64 : ℕ

abbrev pub phys : ℕ → PhysAddr
phys a = record { as_u64 = a }

abbrev pub virt : ℕ → VirtAddr
virt a = record { as_u64 = a }

unfoldable pub is_aligned_to : PhysAddr → ℕ → Bool
is_aligned_to a align = a.as_u64 % align == 0

unfoldable pub align_down : PhysAddr → ℕ → PhysAddr
align_down a align = phys (a.as_u64 - a.as_u64 % align)

unfoldable pub checked_add_addr : PhysAddr → ℕ → Option PhysAddr
checked_add_addr a offset =
    if ltb (a.as_u64 + offset) word_size then some (phys (a.as_u64 + offset)) else none

unfoldable pub saturating_sub_addr : PhysAddr → PhysAddr → ℕ
saturating_sub_addr a earlier = a.as_u64 - earlier.as_u64
