-- ===== src/Process/Tests.antt =====
-- Files, ranges and the ownership check at concrete inputs.
use aion_so.Base.{
  ◌+◌, ◌≤◌, ◌<◌, ◌≡◌, ◌≢◌, ◌⊎◌, ◌↔◌, refl, true, false, none, some, List, [], ◌∷◌, get_elem?, arith,
  word_size,
}
use aion_so.Hal.Addr.{phys}
use aion_so.Hal.Frame.{PhysRange, end_of, contains}
use aion_so.Process.OpenFiles.{OpenFile, Table, open_file}
use aion_so.Process.OpenFiles.Laws.{Opened, open_lem}
use aion_so.Process.Ranges.{owned_by, fixed}
use aion_so.Process.Building.{Building, ok, max_ranges, own}
use aion_so.Process.Building
use aion_so.Process.Checking.{Among, owned_by_iff, owned_by-contains}
use aion_so.Process.Ownership.{IsValid, new-IsValid, own_lem, writable-owned}

abbrev readme : OpenFile
readme = record {
  entry = record {
    name = 82 ∷ 69 ∷ 65 ∷ 68 ∷ [];
    name_len = 4;
    attributes = 0;
    first_cluster = 3;
    size = 100;
  };
  position = 0;
}

-- Descriptor 1 was closed while 0 and 2 stay open.
abbrev with_gap : Table
with_gap = some readme ∷ none ∷ some readme ∷ none ∷ []

open_lem_example : Opened with_gap readme (open_file with_gap readme)
open_lem_example = open_lem with_gap readme

abbrev code : PhysRange
code = record { start = phys 0x40_0000; len = 0x1000 }

abbrev stack : PhysRange
stack = record { start = phys 0x50_0000; len = 0x4000 }

abbrev mine : List PhysRange
mine = code ∷ stack ∷ []

owned_by_iff_example : (owned_by mine 0x50_0ff0 0x20 ≡ true) ↔ (
    (0 < 0x20)
    × (0x50_0ff0 + 0x20 < word_size)
    × ((r : PhysRange) × Among r mine
        × (r.start.as_u64 ≤ 0x50_0ff0)
        × (0x50_0ff0 + 0x20 ≤ (end_of r).as_u64)))
owned_by_iff_example = owned_by_iff mine 0x50_0ff0 0x20

owned_by-contains_example : (r : PhysRange) × Among r mine × (contains r (phys 0x50_1000) ≡ true)
unfolding owned_by end_of
owned_by-contains_example =
    owned_by-contains mine 0x50_0ff0 0x20 0x50_1000 refl (omega arith) (omega arith)

-- A buffer that runs from one range into memory of nobody is refused.
past_the_end : owned_by mine 0x40_0ff0 0x20 ≡ false
unfolding owned_by end_of
past_the_end = refl

own_lem_example :
    let b = Building.new 0x1000 in
    let (r, b') = own b stack true in
    IsValid b'
    × (((r ≡ ok)
          × (b.ranges < max_ranges)
          × (b'.ranges ≡ b.ranges + 1)
          × (get_elem? b'.owned b.ranges ≡ some (some stack)))
        ⊎ ((b.ranges ≡ max_ranges) × (b' ≡ b) × (r ≢ ok)))
own_lem_example = own_lem (Building.new 0x1000) stack true (new-IsValid 0x1000)

abbrev half_built : Building
half_built = (own (Building.new 0x1000) stack true).1

writable-owned_example : owned_by (fixed half_built.owned) 0x50_0ff0 0x20 ≡ true
unfolding own Building.new owned_by end_of fixed
writable-owned_example = writable-owned half_built 0x50_0ff0 0x20 own_lem_example.0 refl
