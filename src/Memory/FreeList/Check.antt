-- ===== src/Memory/FreeList/Check.antt =====
-- `check` of kernel/src/memory/heap/free_list.rs: the walk that verifies the free list. The texts
-- of `HeapCorruption` are the constructors of `Fault`.
use aion_so.Base.{
  ℕ, zero, suc, ◌-◌, ◌/◌, ◌%◌, max, Bool, false, not, ◌||◌, Option, none, some, if◌then◌else◌, ltb,
  leb, ◌==◌, ◌>>=◌, add64,
}
use aion_so.Memory.FreeList.{Hole, Heap, granule, read_hole}

pub data Fault : Type 0 where
  too_long outside out_of_order impossible_size wrong_count : Fault

pub record HeapCorruption : Type 0 where
  pub what : Fault
  pub at : ℕ

pub record HeapStats : Type 0 where
  pub size : ℕ
  pub free : ℕ
  pub holes : ℕ
  pub largest_hole : ℕ

pub data Report : Type 0 where
  ok : HeapStats → Report
  err : HeapCorruption → Report

abbrev corrupt : Fault → ℕ → Option Report
corrupt what at = some (err (record { what = what; at = at }))

-- The end of the loop.
unfoldable pub conclude : Heap → ℕ → ℕ → ℕ → Option Report
conclude h free holes largest =
    if not (free == h.free)
    then corrupt wrong_count 0
    else some (
        ok (record { size = h.end' - h.start; free = free; holes = holes; largest_hole = largest }))

-- `previous_end.is_some_and(|end| current <= end)`
abbrev pub not_after : Option ℕ → ℕ → Bool
not_after none current = false
not_after (some end') current = leb current end'

abbrev pub is_outside : Heap → ℕ → Bool
is_outside h current = not (current % granule == 0) || (ltb current h.start || leb h.end' current)

abbrev pub is_impossible : Heap → ℕ → ℕ → Bool
is_impossible h current size =
    ltb size granule || (not (size % granule == 0) || ltb (h.end' - current) size)

-- The loop, by the holes that the heap has room for beyond those counted.
unfoldable pub check_from : ℕ → Heap → ℕ → Option ℕ → ℕ → ℕ → ℕ → Option Report
unfolding conclude read_hole
check_from zero h current previous_end free holes largest =
    if current == 0 then conclude h free holes largest else corrupt too_long current
check_from (suc n) h current previous_end free holes largest =
    let walk = λ (hole : Hole).
      check_from n h hole.next (some (add64 current hole.size)) (add64 free hole.size)
        (add64 holes 1) (max largest hole.size) in
    if current == 0
    then conclude h free holes largest
    else if is_outside h current
    then corrupt outside current
    else if not_after previous_end current
    then corrupt out_of_order current
    else (do
      hole ← read_hole h current
      if is_impossible h current hole.size then corrupt impossible_size current else walk hole)

unfoldable pub check : Heap → Option Report
unfolding check_from
check h = check_from ((h.end' - h.start) / granule) h h.head none 0 0 0
