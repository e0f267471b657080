-- ===== src/Hal/Elf/Tests.antt =====
-- A program of one page of code, built by hand.
use aion_so.Base.{ℕ, ◌≡◌, refl, some, List, [], ◌∷◌, ◌++◌, replicate}
use aion_so.Hal.Addr.{virt}
use aion_so.Hal.Elf.{Program, ok, err, entry_outside_segments, has_flag, parse}

abbrev word : ℕ → ℕ → List ℕ
word low high = low ∷ high ∷ replicate 6 0

-- The header: class, kind, machine, an entry point, one program header at byte 64.
abbrev header : ℕ → List ℕ
header entry_page =
    (0x7f ∷ 0x45 ∷ 0x4c ∷ 0x46 ∷ 2 ∷ 1 ∷ 1 ∷ replicate 9 0)
    ++ (2 ∷ 0 ∷ 0x3e ∷ 0 ∷ 1 ∷ 0 ∷ 0 ∷ 0 ∷ [])
    ++ word 0 entry_page
    ++ word 64 0
    ++ word 0 0
    ++ (0 ∷ 0 ∷ 0 ∷ 0 ∷ 64 ∷ 0 ∷ 56 ∷ 0 ∷ 1 ∷ 0 ∷ replicate 6 0)

-- Loaded at 0x1000: sixteen bytes of the file in a page that may be read and executed.
abbrev code_segment : List ℕ
code_segment =
    (1 ∷ 0 ∷ 0 ∷ 0 ∷ 5 ∷ 0 ∷ 0 ∷ 0 ∷ [])
    ++ word 0 0
    ++ word 0 0x10
    ++ word 0 0
    ++ word 16 0
    ++ word 0 0x10
    ++ word 0 0x10

abbrev program : List ℕ
program = header 0x10 ++ code_segment

abbrev loaded : Program
loaded = record {
  entry = virt 0x1000;
  segments =
      record { file_offset = 0; file_size = 16; at = virt 0x1000; memory_size = 0x1000; flags = 5 }
      ∷ [];
}

is_accepted : parse program 0x8000_0000 ≡ some (ok loaded)
unfolding parse has_flag
is_accepted = refl

-- One whose entry point is in the page behind the code is refused.
is_refused :
    parse (header 0x20 ++ code_segment) 0x8000_0000 ≡ some (err (entry_outside_segments 0x2000))
unfolding parse has_flag
is_refused = refl
