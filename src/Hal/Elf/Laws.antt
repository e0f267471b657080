-- ===== src/Hal/Elf/Laws.antt =====
-- A program that `parse` accepts is safe to load, and the reading never leaves the file.
use aion_so.Base.{ℕ, ◌+◌, ◌≤◌, ◌<◌, ◌≡◌, ◌⊎◌, true, Option, some, List, length, get_elem?, All}
use aion_so.Hal.Addr.{virt}
use aion_so.Hal.Elf.{
  ElfError, Result, ok, err, Segment, Program, table_in, executable, max_segments, u64_at,
}
use aion_so.Hal.Elf.Segments.{IsLoadable, described}

-- The program's segment at some place is executable and holds the entry point.
abbrev pub Enters : Program → Type 0
Enters p =
    (i : ℕ) × (s : Segment) × (get_elem? p.segments i ≡ some s)
    × (executable s ≡ true)
    × (s.at.as_u64 ≤ p.entry.as_u64)
    × (p.entry.as_u64 < s.at.as_u64 + s.memory_size)

-- What `parse` answers.
abbrev pub Parsed : List ℕ → ℕ → Option (Result Program) → Type 0
Parsed file limit r =
    ((e : ElfError) × (r ≡ some (err e)))
    ⊎ ((p : Program) × (r ≡ some (ok p))
        × (p.segments ≡ described (table_in file).count 0 file (table_in file))
        × All (IsLoadable (length file) limit) p.segments
        × (0 < length p.segments)
        × (length p.segments ≤ max_segments)
        × (p.entry ≡ virt (u64_at file 24))
        × Enters p)
