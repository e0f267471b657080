-- ===== src/Paging/Outcomes.antt =====
-- arch/x86_64/src/paging.rs: what the two outcomes of `map` mean for the translations.
use mathlib.Core.Bool.{xor}
use aion_so.Base.{ℕ, ◌/◌, ◌%◌, ◌+◌, ◌≡◌, true, false, Option, none, some, ltb, ◌≢◌}
use aion_so.Hal.Frame.{PhysFrame}
use aion_so.Hal.Paging.{PageFlags, MapError}
use aion_so.Paging.Entries.{kernel_space_base}
use aion_so.Paging.{PageTables, translate}
use aion_so.Paging.Leaf.{Untouched}

-- `page` is mapped to `frame`; nothing else has changed.
pub record Mapped (t t' : PageTables) (page : ℕ) (frame : PhysFrame) (flags : PageFlags)
    : Type 0 where
  pub allowed : xor flags.user (ltb page kernel_space_base) ≡ false
  pub was_free : (va : ℕ) → va / 4096 ≡ page / 4096 → translate t va ≡ none
  pub there :
      (va : ℕ)
      → va / 4096 ≡ page / 4096
      → translate t' va
        ≡ some (record {
          phys_addr = frame.start.as_u64 + va % 4096;
          is_writable = flags.writable;
          size = 4096;
        })
  pub others : (va : ℕ) → va / 4096 ≢ page / 4096 → translate t' va ≡ translate t va

-- `map` has answered an error, and nothing translates differently.
pub record Refused (t t' : PageTables) (page : ℕ) (flags : PageFlags) (e : Option MapError)
    : Type 0 where
  pub same : Untouched t t'
  pub outside :
      e ≡ some MapError.outside_kernel_space → xor flags.user (ltb page kernel_space_base) ≡ true
  pub inside :
      e ≢ some MapError.outside_kernel_space → xor flags.user (ltb page kernel_space_base) ≡ false
  pub taken : e ≡ some MapError.already_mapped → translate t page ≢ none
