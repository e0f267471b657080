-- ===== src/Process/Building.antt =====
-- The bookkeeping of a process while it is being built.
use aion_so.Base.{ℕ, Bool, Option, none, some, List, if◌then◌else◌, ◌==◌, set, replicate, add64}
use aion_so.Hal.Frame.{PhysFrame, PhysRange}
use aion_so.Hal.Paging.{MapError}
use aion_so.Paging.Spaces.{PagingError}
use aion_so.Memory.FrameAllocator.Purposes.{FramePurpose}

abbrev pub max_ranges : ℕ
max_ranges = 9

abbrev pub max_frames : ℕ
max_frames = 32

pub data SpawnError : Type 0 where
  out_of_memory : SpawnError
  in_space : PagingError → SpawnError
  mapping : MapError → SpawnError
  program_too_big too_many_ranges too_many_frames : SpawnError
  segments_share_a_page : ℕ → SpawnError

pub record Building : Type 0 where
  pub space : ℕ
  pub owned : List (Option PhysRange)
  pub writable : List (Option PhysRange)
  pub frames : List (Option (PhysFrame × FramePurpose))
  pub ranges : ℕ
  pub taken : ℕ

pub data Result : Type 0 where
  ok : Result
  err : SpawnError → Result

unfoldable pub new : ℕ → Building
new space = record {
  space = space;
  owned = replicate max_ranges none;
  writable = replicate max_ranges none;
  frames = replicate max_frames none;
  ranges = 0;
  taken = 0;
}

unfoldable pub own : Building → PhysRange → Bool → Result × Building
own b range writable = if b.ranges == max_ranges then (err too_many_ranges, b) else (
  ok,
  record b {
    owned = set b.owned b.ranges (some range);
    writable = if writable then set b.writable b.ranges (some range) else b.writable;
    ranges = add64 b.ranges 1;
  },
)

unfoldable pub took : Building → PhysFrame → FramePurpose → Result × Building
took b frame purpose = if b.taken == max_frames then (err too_many_frames, b) else (
  ok,
  record b { frames = set b.frames b.taken (some (frame, purpose)); taken = add64 b.taken 1 },
)
