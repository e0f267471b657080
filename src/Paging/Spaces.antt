-- ===== src/Paging/Spaces.antt =====
-- arch/x86_64/src/paging.rs: whole spaces. `adopt` copies the firmware's root, and
-- `new_process_space` shares the kernel's half of one.
use aion_so.Base.{
  ℕ, zero, suc, ◌-◌, ◌+◌, Bool, false, ◌||◌, Option, none, some, ◌⊎◌, inl, inr, if◌then◌else◌,
}
use aion_so.Hal.Paging.{MapError}
use aion_so.Paging.Entries.{present, is_set, entries_per_table}
use aion_so.Paging.{PageTables, Access, Mapper, FrameAllocator, new_table, stored}

pub data PagingError : Type 0 where
  five_level_paging pcid_enabled no_execute_disabled not_identity_mapped kernel_space_in_use
        out_of_frames table_frame_not_writable bad_identity_limit
        required_range_outside_identity_map window_outside_kernel_space window_slot_taken :
      PagingError

-- `map_err` of a table that could not be made.
abbrev pub to_paging : MapError → PagingError
to_paging MapError.out_of_frames = PagingError.out_of_frames
to_paging MapError.outside_kernel_space = PagingError.table_frame_not_writable
to_paging MapError.already_mapped = PagingError.table_frame_not_writable
to_paging MapError.table_frame_not_writable = PagingError.table_frame_not_writable
to_paging MapError.huge_page_in_the_way = PagingError.table_frame_not_writable

abbrev pub kernel_slot : ℕ
kernel_slot = 256

-- `count` entries of `old`, from `first` on, written to `new` one after another.
unfoldable pub copied : (ℕ → ℕ → ℕ) → ℕ → ℕ → ℕ → ℕ → (ℕ → ℕ → ℕ)
copied entries old new first zero = entries
copied entries old new first (suc n) =
    let before = copied entries old new first n in
    stored before new (first + n) (before old (first + n))

-- Whether one of `count` entries from `first` on is present.
unfoldable pub any_present : (ℕ → ℕ → ℕ) → ℕ → ℕ → ℕ → Bool
any_present entries table first zero = false
any_present entries table first (suc n) =
    any_present entries table first n || is_set (entries table (first + n)) present

abbrev with_entries : PageTables → (ℕ → ℕ → ℕ) → PageTables
with_entries t entries = record t { access = record t.access { entries = entries } }

-- The new root holds what the old one held.
unfoldable pub adopted :
    {F : Type 0} → ℕ → Mapper F × (MapError ⊎ ℕ) → Mapper F × Option PagingError
adopted old_root (m, inl err) = (m, some (to_paging err))
adopted old_root (m, inr new_root) =
    let entries = copied m.tables.access.entries old_root new_root 0 entries_per_table in
    (record m { tables = record (with_entries m.tables entries) { root = new_root } }, none)

-- The process's root holds the kernel's half. Both spaces go on with the same memory: `access` of
-- the new one is as that memory is now.
unfoldable pub shared :
    {F : Type 0} → Mapper F × (MapError ⊎ ℕ) → Mapper F × (MapError ⊎ PageTables)
shared (m, inl err) = (m, inl err)
shared (m, inr root) =
    let entries =
      copied m.tables.access.entries m.tables.root root kernel_slot
        (entries_per_table - kernel_slot) in
    let t = with_entries m.tables entries in
    (record m { tables = t }, inr (record t { root = root }))

module _ {F : Type 0} (source : FrameAllocator F) where
  unfoldable pub adopt : Access → ℕ → F → Mapper F × Option PagingError
  adopt access old_root frames =
      let m : Mapper F = record {
        tables = record { root = old_root; access = access };
        frames = frames;
      } in
      if any_present access.entries old_root kernel_slot (entries_per_table - kernel_slot)
      then (m, some PagingError.kernel_space_in_use)
      else adopted old_root (new_table source m)

  unfoldable pub new_process_space : Mapper F → Mapper F × (MapError ⊎ PageTables)
  new_process_space m = shared (new_table source m)
