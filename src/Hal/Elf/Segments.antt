-- ===== src/Hal/Elf/Segments.antt =====
-- The loop over the program headers: which segments it finds, and that each may be loaded.
use aion_so.Base.{
  ℕ, zero, suc, ◌+◌, ◌*◌, ◌≤◌, ◌<◌, ◌≡◌, ◌⊎◌, inl, inr, refl, ap, true, false, ◌&&◌, Option, some,
  List, [], ◌∷◌, ◌++◌, if◌then◌else◌, ◌==◌, arith, length, take, drop, All, length-append,
  Bool-cases, word_size, word_max, add64, mul64, saturating_add,
}
use aion_so.Hal.Elf.{
  ElfError, Result, ok, err, Segment, Table, table_in, writable, executable, slice, read_table,
  check_segment, keep, segment_of, is_loadable, read_segments, max_segments, program_header_bytes,
}

-- What the loader relies on: the contents are in the file, the memory is at least as long, not
-- empty and below `limit`, and is not both writable and executable.
pub record IsLoadable (len limit : ℕ) (s : Segment) : Type 0 where
  pub in_file : s.file_offset + s.file_size ≤ len
  pub not_shrunk : s.file_size ≤ s.memory_size
  pub not_empty : 0 < s.memory_size
  pub below : s.at.as_u64 + s.memory_size ≤ limit
  pub no_wrap : s.at.as_u64 + s.memory_size < word_size
  pub write_xor_execute : (writable s && executable s) ≡ false

pub check_segment-cases :
    (len limit : ℕ) (s : Segment)
    → ((e : ElfError) × (check_segment len limit s ≡ err e))
      ⊎ ((check_segment len limit s ≡ ok s) × IsLoadable len limit s)
unfolding check_segment
check_segment-cases len limit s = ground arith

pub read_table-cases :
    (file : List ℕ)
    → ((e : ElfError) × (read_table file ≡ err e))
      ⊎ ((read_table file ≡ ok (table_in file))
          × ((table_in file).entry_size ≡ 56)
          × (0 < (table_in file).count)
          × (saturating_add
                (table_in file).offset
                ((table_in file).count * (table_in file).entry_size)
              ≤ length file))
unfolding read_table
read_table-cases file = ground arith

keep-cases :
    (len limit : ℕ) (s : Segment) (found : List Segment)
    → length found ≤ max_segments
    → ((e : ElfError) × (keep len limit s found ≡ err e))
      ⊎ ((keep len limit s found ≡ ok (found ++ s ∷ []))
          × IsLoadable len limit s
          × (length found < max_segments))
unfolding keep
keep-cases len limit s found h = elim (check_segment-cases len limit s) [
  | inl (e, bad) ↦ inl (e, rw (bad, keep) refl)
  | inr (good, sound) ↦ elim (Bool-cases (length found == max_segments)) [
    | inl full ↦ inl (ElfError.too_many_segments (length found + 1), rw (good, keep) (rw full refl))
    | inr room ↦ inr (rw (good, keep) (rw room refl), sound, ground arith)
  ]
]

pub slice-some :
    (bytes : List ℕ) (at n : ℕ)
    → at + n ≤ length bytes
    → slice bytes at n ≡ some (take n (drop at bytes))
unfolding slice
slice-some bytes at n h = ground arith

All-append :
    (P : Segment → Type 0) (xs : List Segment) (s : Segment) → All P xs → P s → All P (xs ++ s ∷ [])
All-append P [] s all p = (p, tt)
All-append P (x ∷ xs) s (px, all) p = (px, All-append P xs s all p)

-- The program header at an index, and the segments that the headers from an index on describe.
abbrev pub header_at : List ℕ → Table → ℕ → List ℕ
header_at file t index = take 56 (drop (t.offset + index * 56) file)

pub described : ℕ → ℕ → List ℕ → Table → List Segment
described zero index file t = []
described (suc n) index file t =
    let rest = described n (index + 1) file t in
    if is_loadable (header_at file t index)
    then segment_of (header_at file t index) ∷ rest
    else rest

append_nil : (xs : List Segment) → xs ++ [] ≡ xs
append_nil [] = refl
append_nil (x ∷ xs) = ap (◌∷◌ x) (append_nil xs)

append_assoc :
    (xs : List Segment) (s : Segment) (ys : List Segment) → (xs ++ s ∷ []) ++ ys ≡ xs ++ s ∷ ys
append_assoc [] s ys = refl
append_assoc (x ∷ xs) s ys = ap (◌∷◌ x) (append_assoc xs s ys)

-- What the loop answers: an error, or the segments found so far and those of the headers left.
abbrev Read : ℕ → ℕ → List Segment → List Segment → Option (Result (List Segment)) → Type 0
Read len limit found rest r =
    ((e : ElfError) × (r ≡ some (err e)))
    ⊎ ((r ≡ some (ok (found ++ rest)))
        × All (IsLoadable len limit) (found ++ rest)
        × (length (found ++ rest) ≤ max_segments))

skip-step :
    (n index limit : ℕ) (file : List ℕ) (t : Table) (found : List Segment)
    → slice file (add64 t.offset (mul64 index t.entry_size)) program_header_bytes
      ≡ some (header_at file t index)
    → is_loadable (header_at file t index) ≡ false
    → read_segments (suc n) index file t limit found
      ≡ read_segments n (index + 1) file t limit found
unfolding read_segments
skip-step n index limit file t found at other = rw (at, read_segments) (rw other refl)

keep-step :
    (n index limit : ℕ) (file : List ℕ) (t : Table) (found : List Segment)
    → slice file (add64 t.offset (mul64 index t.entry_size)) program_header_bytes
      ≡ some (header_at file t index)
    → is_loadable (header_at file t index) ≡ true
    → keep (length file) limit (segment_of (header_at file t index)) found
      ≡ ok (found ++ segment_of (header_at file t index) ∷ [])
    → read_segments (suc n) index file t limit found
      ≡ read_segments n (index + 1) file t limit (found ++ segment_of (header_at file t index) ∷ [])
unfolding read_segments
keep-step n index limit file t found at load kept = rw (at, read_segments) (rw load (rw kept refl))

stop-step :
    (n index limit : ℕ) (file : List ℕ) (t : Table) (found : List Segment) (e : ElfError)
    → slice file (add64 t.offset (mul64 index t.entry_size)) program_header_bytes
      ≡ some (header_at file t index)
    → is_loadable (header_at file t index) ≡ true
    → keep (length file) limit (segment_of (header_at file t index)) found ≡ err e
    → read_segments (suc n) index file t limit found ≡ some (err e)
unfolding read_segments
stop-step n index limit file t found e at load bad = rw (at, read_segments) (rw load (rw bad refl))

module _ (file : List ℕ) (t : Table) (limit : ℕ) (fits : length file < word_max)
    (size : t.entry_size ≡ 56) where
  slice_lem :
      (index : ℕ)
      → t.offset + (index + 1) * 56 ≤ length file
      → slice file (add64 t.offset (mul64 index t.entry_size)) program_header_bytes
        ≡ some (header_at file t index)
  slice_lem index h =
      let e : add64 t.offset (mul64 index t.entry_size) ≡ t.offset + index * 56 =
        rw size (omega arith) in
      rw e (slice-some file (t.offset + index * 56) 56 (omega arith))

  pub read_segments-Read :
      (n index : ℕ) (found : List Segment)
      → t.offset + (index + n) * 56 ≤ length file
      → All (IsLoadable (length file) limit) found
      → length found ≤ max_segments
      → Read
          (length file)
          limit
          found
          (described n index file t)
          (read_segments n index file t limit found)
  unfolding read_segments described
  read_segments-Read zero index found h all short = rw (append_nil found) (inr (refl, all, short))
  read_segments-Read (suc n) index found h all short =
      let at : slice file (add64 t.offset (mul64 index t.entry_size)) program_header_bytes
          ≡ some (header_at file t index) =
        slice_lem index (omega arith) in
      elim (Bool-cases (is_loadable (header_at file t index))) [
        | inr other ↦
            rw (skip-step n index limit file t found at other)
              (rw other (read_segments-Read n (index + 1) found (omega arith) all short))
        | inl load ↦
            let s : Segment = segment_of (header_at file t index) in
            elim (keep-cases (length file) limit s found short) [
              | inl (e, bad) ↦ inl (e, stop-step n index limit file t found e at load bad)
              | inr (kept, sound, room) ↦ rw (keep-step n index limit file t found at load kept) (
                  rw load (
                    rw (← append_assoc found s (described n (index + 1) file t)) (
                      read_segments-Read n (index + 1) (found ++ s ∷ []) (omega arith)
                        (All-append (IsLoadable (length file) limit) found s all sound)
                        (omega (arith, length-append found (s ∷ []))))))
            ]
      ]
