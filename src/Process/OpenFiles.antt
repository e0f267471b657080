-- ===== src/Process/OpenFiles.antt =====
-- The files that a process has open: a fixed table, where a descriptor is an index.
pub mod Laws
use aion_so.Base.{
  ℕ, suc, ◌+◌, Bool, true, false, ◌||◌, Option, none, some, List, [], ◌∷◌, if◌then◌else◌, get_elem?,
  set, replicate, any,
}
use aion_so.Hal.Fat.Directory.{DirectoryEntry, is_named}

abbrev pub max_open : ℕ
max_open = 4

pub record OpenFile : Type 0 where
  pub entry : DirectoryEntry
  pub position : ℕ

abbrev pub Table : Type 0
Table = List (Option OpenFile)

unfoldable pub new : Table
new = replicate max_open none

-- `iter().position(Option::is_none)`
unfoldable pub first_free {ℓ} : {A : Type ℓ} → List (Option A) → Option ℕ
first_free [] = none
first_free (none ∷ rest) = some 0
first_free (some a ∷ rest) = elim (first_free rest) [ none ↦ none | some i ↦ some (suc i) ]

-- The descriptor, and the table after.
unfoldable pub open_file : Table → OpenFile → Option ℕ × Table
open_file t file = elim (first_free t) [ none ↦ (none, t) | some i ↦ (some i, set t i (some file)) ]

-- What `get`, `get_mut` and `as_mut` answer: out of range and closed are the same.
unfoldable pub slot_at {ℓ} : {A : Type ℓ} → List (Option A) → ℕ → Option A
slot_at t i = elim (get_elem? t i) [ none ↦ none | some slot ↦ slot ]

unfoldable pub file_at : Table → ℕ → Option OpenFile
unfolding slot_at
file_at t descriptor = slot_at t descriptor

unfoldable pub close : Table → ℕ → Bool × Table
unfolding slot_at
close t descriptor = elim (slot_at t descriptor) [
  | none ↦ (false, t)
  | some file ↦ (true, set t descriptor none)
]

file_is : List ℕ → Option OpenFile → Bool
file_is name none = false
file_is name (some file) = is_named file.entry name

unfoldable pub holds : Table → List ℕ → Bool
unfolding file_is
holds t name = any (file_is name) t

unfoldable pub close_all : Table → Table
unfolding new
close_all t = new

unfoldable pub count : Table → ℕ
count [] = 0
count (none ∷ rest) = count rest
count (some file ∷ rest) = suc (count rest)
