-- ===== src/Process.antt =====
-- kernel/src/process.rs: what a process owns, and the files it has open.
pub mod OpenFiles
pub mod Ranges
pub mod Checking
pub mod Ownership
pub mod Building
mod Tests
use aion_so.Base.{ℕ, Bool, Option, List}
use aion_so.Hal.Addr.{VirtAddr}
use aion_so.Hal.Frame.{PhysFrame, PhysRange}
use aion_so.Memory.FrameAllocator.Purposes.{FramePurpose}
use OpenFiles.{OpenFile}

-- kernel/src/memory/stacks.rs
pub record Stack : Type 0 where
  pub bottom : VirtAddr
  pub top : VirtAddr

-- Of the address space only the root of its tables is kept here.
pub record Process : Type 0 where
  pub space : ℕ
  pub owned : List (Option PhysRange)
  pub writable : List (Option PhysRange)
  pub frames : List (Option (PhysFrame × FramePurpose))
  pub entry : VirtAddr
  pub kernel_stack : Stack
  pub open_files : List (Option OpenFile)

unfoldable pub close_everything : Process → Process
unfolding OpenFiles.close_all
close_everything p = record p { open_files = OpenFiles.close_all p.open_files }

pub has_open : Process → List ℕ → Bool
has_open p name = OpenFiles.holds p.open_files name

unfoldable pub ranges : Process → List PhysRange
ranges p = Ranges.fixed p.owned

unfoldable pub writable_ranges : Process → List PhysRange
writable_ranges p = Ranges.fixed p.writable

pub owns : Process → ℕ → ℕ → Bool
unfolding ranges
owns p ptr len = Ranges.any_owned_by (ranges p) ptr len
