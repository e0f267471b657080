-- ===== src/Hal/Elf.antt =====
-- hal/src/elf.rs: reading a static ELF64 program and refusing everything that would become a bad
-- address. `none` is a slice out of bounds, which panics; an error of the file is an `err`.
pub mod Segments
pub mod Laws
mod Tests
use Prim.Native.Nat.{bit_and}
use aion_so.Base.{
  ℕ, zero, suc, ◌+◌, ◌*◌, ◌^◌, Bool, true, false, not, ◌&&◌, ◌||◌, Option, none, some, List, [],
  ◌∷◌, ◌++◌, if◌then◌else◌, ltb, leb, ◌==◌, length, get_or, take, drop, any, checked_add,
  saturating_add, add64, sub64, mul64, max,
}
use aion_so.Hal.Addr.{VirtAddr, virt}

pub data ElfError : Type 0 where
  not_elf : ElfError
  not_sixty_four_bit_little_endian : ℕ → ℕ → ℕ → ElfError
  not_a_static_executable : ℕ → ElfError
  not_x86_64 : ℕ → ElfError
  truncated : ℕ → ℕ → ElfError
  bad_program_headers : ℕ → ℕ → ElfError
  segment_outside_file : ℕ → ℕ → ElfError
  segment_shrinks : ℕ → ℕ → ElfError
  segment_of_nothing : ℕ → ElfError
  segment_outside_user_space : ℕ → ℕ → ElfError
  segment_writable_and_executable : ℕ → ElfError
  too_many_segments : ℕ → ElfError
  no_segments : ElfError
  entry_outside_segments : ℕ → ElfError

pub data Result (A : Type 0) : Type 0 where
  ok : A → Result A
  err : ElfError → Result A

abbrev pub max_segments : ℕ
max_segments = 8

abbrev pub header_bytes : ℕ
header_bytes = 64

abbrev pub program_header_bytes : ℕ
program_header_bytes = 56

abbrev magic : List ℕ
magic = 0x7f ∷ 0x45 ∷ 0x4c ∷ 0x46 ∷ []

pub record Segment : Type 0 where
  pub file_offset : ℕ
  pub file_size : ℕ
  pub at : VirtAddr
  pub memory_size : ℕ
  pub flags : ℕ

unfoldable pub has_flag : ℕ → ℕ → Bool
has_flag flags flag = not (bit_and flags flag == 0)

unfoldable pub writable : Segment → Bool
writable s = has_flag s.flags 2

unfoldable pub executable : Segment → Bool
executable s = has_flag s.flags 1

unfoldable pub readable : Segment → Bool
readable s = has_flag s.flags 4

unfoldable pub zeroes : Segment → ℕ
zeroes s = sub64 s.memory_size s.file_size

unfoldable pub segment_end : Segment → ℕ
segment_end s = add64 s.at.as_u64 s.memory_size

-- `segments` holds the entries of the array that are in use.
pub record Program : Type 0 where
  pub entry : VirtAddr
  pub segments : List Segment

highest_of : List Segment → ℕ
unfolding segment_end
highest_of [] = 0
highest_of (s ∷ rest) = max (segment_end s) (highest_of rest)

unfoldable pub highest_address : Program → ℕ
unfolding highest_of
highest_address p = highest_of p.segments

-- The bytes that are read here are in the slice: its length was checked first.
abbrev pub u16_at : List ℕ → ℕ → ℕ
u16_at bytes at = get_or bytes at 0 + 256 * get_or bytes (at + 1) 0

abbrev pub u32_at : List ℕ → ℕ → ℕ
u32_at bytes at = u16_at bytes at + 2 ^ 16 * u16_at bytes (at + 2)

abbrev pub u64_at : List ℕ → ℕ → ℕ
u64_at bytes at = u32_at bytes at + 2 ^ 32 * u32_at bytes (at + 4)

unfoldable pub slice : List ℕ → ℕ → ℕ → Option (List ℕ)
slice bytes at n = if leb (at + n) (length bytes) then some (take n (drop at bytes)) else none

same_bytes : List ℕ → List ℕ → Bool
same_bytes [] [] = true
same_bytes [] (b ∷ bs) = false
same_bytes (a ∷ as') [] = false
same_bytes (a ∷ as') (b ∷ bs) = (a == b) && same_bytes as' bs

-- Where the program headers are, once the header of the file is accepted.
pub record Table : Type 0 where
  pub offset : ℕ
  pub count : ℕ
  pub entry_size : ℕ

abbrev table_in : List ℕ → Table
table_in file = record {
  offset = u64_at file 32;
  count = u16_at file 56;
  entry_size = u16_at file 54;
}

abbrev table_end : Table → ℕ
table_end t = saturating_add t.offset (t.count * t.entry_size)

unfoldable pub read_table : List ℕ → Result Table
unfolding same_bytes
read_table file =
    if ltb (length file) header_bytes || not (same_bytes (take 4 file) magic)
    then err not_elf
    else if not (get_or file 4 0 == 2) || (not (get_or file 5 0 == 1) || not (get_or file 6 0 == 1))
    then err
        (not_sixty_four_bit_little_endian (get_or file 4 0) (get_or file 5 0) (get_or file 6 0))
    else if not (u16_at file 16 == 2)
    then err (not_a_static_executable (u16_at file 16))
    else if not (u16_at file 18 == 0x3e)
    then err (not_x86_64 (u16_at file 18))
    else if not (u16_at file 54 == program_header_bytes) || (u16_at file 56 == 0)
    then err (bad_program_headers (u16_at file 54) (u16_at file 56))
    else if ltb (length file) (table_end (table_in file))
    then err (truncated (table_end (table_in file)) (length file))
    else ok (table_in file)

-- What a program header says of its segment.
abbrev pub segment_of : List ℕ → Segment
segment_of header = record {
  file_offset = u64_at header 8;
  file_size = u64_at header 32;
  at = virt (u64_at header 16);
  memory_size = u64_at header 40;
  flags = u32_at header 4;
}

-- `is_none_or(|end| end > limit)`
abbrev pub runs_past : ℕ → ℕ → ℕ → Bool
runs_past start size limit = elim (checked_add start size) [
  | none ↦ true
  | some end' ↦ ltb limit end'
]

unfoldable pub check_segment : ℕ → ℕ → Segment → Result Segment
unfolding writable executable
check_segment length user_space_end s =
    if runs_past s.file_offset s.file_size length
    then err (segment_outside_file s.file_offset s.file_size)
    else if ltb s.memory_size s.file_size
    then err (segment_shrinks s.file_size s.memory_size)
    else if s.memory_size == 0
    then err (segment_of_nothing s.at.as_u64)
    else if runs_past s.at.as_u64 s.memory_size user_space_end
    then err (segment_outside_user_space s.at.as_u64 s.memory_size)
    else if writable s && executable s
    then err (segment_writable_and_executable s.at.as_u64)
    else ok s

-- One more segment behind those found, if it is good and there is room.
unfoldable pub keep : ℕ → ℕ → Segment → List Segment → Result (List Segment)
unfolding check_segment
keep len user_space_end s found = elim (check_segment len user_space_end s) [
  | err e ↦ err e
  | ok good ↦
      if length found == max_segments
      then err (too_many_segments (length found + 1))
      else ok (found ++ good ∷ [])
]

unfoldable pub is_loadable : List ℕ → Bool
is_loadable header = u32_at header 0 == 1

-- `for index in 0..count`, by the rounds left.
unfoldable pub read_segments :
    ℕ → ℕ → List ℕ → Table → ℕ → List Segment → Option (Result (List Segment))
unfolding slice keep is_loadable
read_segments zero index file t user_space_end found = some (ok found)
read_segments (suc n) index file t user_space_end found =
    let rest = read_segments n (index + 1) file t user_space_end in
    elim (slice file (add64 t.offset (mul64 index t.entry_size)) program_header_bytes) [
      | none ↦ none
      | some header ↦
          if not (is_loadable header)
          then rest found
          else elim (keep (length file) user_space_end (segment_of header) found) [
            | err e ↦ some (err e)
            | ok more ↦ rest more
          ]
    ]

unfoldable pub enters : ℕ → Segment → Bool
unfolding segment_end executable
enters entry s = leb s.at.as_u64 entry && (ltb entry (segment_end s) && executable s)

unfoldable pub finish : List ℕ → List Segment → Result Program
unfolding enters
finish file found =
    if length found == 0
    then err no_segments
    else if not (any (enters (u64_at file 24)) found)
    then err (entry_outside_segments (u64_at file 24))
    else ok (record { entry = virt (u64_at file 24); segments = found })

unfoldable pub parse : List ℕ → ℕ → Option (Result Program)
unfolding read_table read_segments finish
parse file user_space_end = elim (read_table file) [
  | err e ↦ some (err e)
  | ok t ↦ elim (read_segments t.count 0 file t user_space_end []) [
    | none ↦ none
    | some (err e) ↦ some (err e)
    | some (ok found) ↦ some (finish file found)
  ]
]
