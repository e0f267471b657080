-- ===== src/Paging/Freeing.antt =====
-- arch/x86_64/src/paging.rs: `free_lower_half`, which gives the tables of a process back. The closure
-- that takes a frame is a parameter, with a state of its own.
use Prim.Native.Nat.{bit_and}
use aion_so.Base.{ℕ, zero, suc, Bool, not, ◌||◌, if◌then◌else◌, add64}
use aion_so.Hal.Addr.{phys}
use aion_so.Hal.Frame.{PhysFrame, containing_address}
use aion_so.Paging.Entries.{is_set, present, huge, address_mask, entries_per_table}
use aion_so.Paging.Spaces.{kernel_slot}
use aion_so.Paging.Tree.{Entries}
use aion_so.Paging.{PageTables, stored}

-- The state of the closure, and how many frames it has accepted.
pub record Freed (G : Type 0) : Type 0 where
  pub owner : G
  pub count : ℕ

abbrev pub counted : {G : Type 0} → Freed G → G × Bool → Freed G
counted h (g, taken) = record { owner = g; count = if taken then add64 h.count 1 else h.count }

module _ {G : Type 0} (give_back : G → PhysFrame → G × Bool) where
  unfoldable pub hand_back : Freed G → ℕ → Freed G
  hand_back h addr = counted h (give_back h.owner (containing_address (phys addr)))

  -- The page tables below the first `n` entries of a directory.
  unfoldable pub free_page_tables : Entries → ℕ → ℕ → Freed G → Freed G
  free_page_tables entries directory zero h = h
  free_page_tables entries directory (suc n) h =
      let before = free_page_tables entries directory n h in
      let entry = entries directory n in
      if not (is_set entry present) || is_set entry huge
      then before
      else hand_back before (bit_and entry address_mask)

  -- The directories below the first `n` entries of a table of directory pointers.
  unfoldable pub free_directories : Entries → ℕ → ℕ → Freed G → Freed G
  free_directories entries directory_pointers zero h = h
  free_directories entries directory_pointers (suc n) h =
      let before = free_directories entries directory_pointers n h in
      let entry = entries directory_pointers n in
      let directory = bit_and entry address_mask in
      if not (is_set entry present) || is_set entry huge
      then before
      else hand_back (free_page_tables entries directory entries_per_table before) directory

  -- What hangs on the first `n` entries of the root, which are cleared on the way.
  unfoldable pub free_slots : Entries → ℕ → ℕ → Freed G → Entries × Freed G
  free_slots entries root zero h = (entries, h)
  free_slots entries root (suc n) h =
      let (before, h') = free_slots entries root n h in
      let entry = before root n in
      let directory_pointers = bit_and entry address_mask in
      if not (is_set entry present) then (before, h') else (
        stored before root n 0,
        hand_back (free_directories before directory_pointers entries_per_table h')
            directory_pointers,
      )

  unfoldable pub free_lower_half : PageTables → G → PageTables × Freed G
  free_lower_half t g =
      let (entries, h) =
        free_slots t.access.entries t.root kernel_slot (record { owner = g; count = 0 }) in
      (record t { access = record t.access { entries = entries } }, hand_back h t.root)
