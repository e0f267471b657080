-- ===== src/Paging/Bitmap.antt =====
-- kernel/src/memory/frame_allocator.rs: the kernel's frame allocator, as the page tables use it
-- through the trait `FrameAllocator`.
use aion_so.Base.{
  ℕ, ◌*◌, ◌^◌, ◌<◌, ◌≤◌, ◌≡◌, sym, ap, ◌∙◌, Bool, false, ◌||◌, Option, none, some, ◌==◌, arith, ◌≢◌,
  inl, inr, length,
}
use mathlib.Core.Path.{subst}
use aion_so.Hal.Addr.{align_down}
use aion_so.Hal.Frame.{PhysFrame, number, containing_address}
use aion_so.Memory.FrameAllocator.{Allocator, allocate_for, allocate_frame, set_purpose, frame_at}
use aion_so.Memory.FrameAllocator.Purposes.{FramePurpose}
use aion_so.Memory.FrameAllocator.BitWords.{bit}
use aion_so.Memory.FrameAllocator.Invariant.{IsValid}
use aion_so.Memory.FrameAllocator.Allocate.{allocate_lem}
use aion_so.Memory.FrameAllocator.Labels.{SameBut, set_purpose-SameBut, SameBut-IsValid}
use aion_so.Memory.FrameAllocator.Deallocate.{allocate_for-some, allocate_for-none}
use aion_so.Paging.Bits.{IsFrame}
use aion_so.Paging.Descent.{Promises}
use aion_so.Paging.{FrameAllocator}

abbrev pub bitmap_source : FrameAllocator Allocator
bitmap_source = record { allocate_frame = allocate_frame }

-- A frame whose bit is clear.
abbrev pub FreeFrame : Allocator → ℕ → Type 0
FreeFrame a x = (g : ℕ) × (g < length a.bitmap * 64) × (x ≡ g * 4096) × (bit a.bitmap g ≡ false)

-- Valid, over at most 2^52 bytes of memory, which is what an entry can point at.
abbrev pub IsReady : Allocator → Type 0
IsReady a = IsValid a × (length a.bitmap * 262144 ≤ 2 ^ 52)

abbrev pub Given : Allocator → Option PhysFrame × Allocator → Type 0
Given f (none, f') = IsReady f' × ((x : ℕ) → FreeFrame f' x → FreeFrame f x)
Given f (some fr, f') =
    IsReady f'
    × (FreeFrame f fr.start.as_u64
        × (IsFrame fr.start.as_u64
            × ((x : ℕ) → FreeFrame f' x → FreeFrame f x × (x ≢ fr.start.as_u64))))

start-frame_at : (g : ℕ) → g * 4096 < 2 ^ 64 → (frame_at g).start.as_u64 ≡ g * 4096
unfolding frame_at containing_address align_down
start-frame_at g h = omega arith

taken_clear : (n g : ℕ) (b c : Bool) → c ≡ (n == g || b) → n ≡ g → c ≡ false → ⊥
taken_clear n g b c e h off = ground arith

-- A valid allocator over at most 2^52 bytes keeps what the page tables ask of their source of frames:
-- what `allocate_frame` leaves is again such an allocator; a frame that it gives had its bit clear,
-- is aligned and below 2^52, and is free no longer; and no frame becomes free by the call.
pub bitmap_gives : (f : Allocator) → IsReady f → Given f (allocate_frame f)
unfolding allocate_frame
bitmap_gives f (v, room) = elim (allocate_lem f v) [
  | inl (e, _, _) ↦ rw (allocate_for-none f FramePurpose.page_table e) ((v, room), λ x h. h)
  | inr (fr, b, e, took, valid) ↦
      let done : allocate_for f FramePurpose.page_table
          ≡ (some fr, set_purpose b fr (some FramePurpose.page_table)) =
        allocate_for-some f b fr FramePurpose.page_table e in
      let same : SameBut b (set_purpose b fr (some FramePurpose.page_table)) =
        set_purpose-SameBut b fr (some FramePurpose.page_table) in
      let bits : (g : ℕ)
          → bit (set_purpose b fr (some FramePurpose.page_table)).bitmap g
            ≡ (number fr == g || bit f.bitmap g) =
        λ g. ap (λ w. bit w g) same.bitmap ∙ took.only g in
      let size : length (set_purpose b fr (some FramePurpose.page_table)).bitmap ≡ length f.bitmap =
        ap length same.bitmap ∙ took.size in
      let start : fr.start.as_u64 ≡ number fr * 4096 =
        ap (λ (x : PhysFrame). x.start.as_u64) (sym took.named)
        ∙ start-frame_at (number fr) (omega (arith, took.inside, room)) in
      rw done (
        (SameBut-IsValid b _ same valid, omega (arith, size, room)),
        (
          (number fr, took.inside, start, took.was_free),
          (
            record {
              aligned = omega (arith, start);
              small = omega (arith, start, took.inside, room);
            },
            λ x (g, inside, named, clear). (
              (g, omega (arith, size, inside), named, ground (arith, bits g, clear)),
              λ e.
                  let h : number fr ≡ g = omega (arith, e, named, start) in
                  taken_clear _ _ _ _ (bits g) h clear,
            ),
          ),
        ),
      )
]

abbrev pub bitmap_promises : Promises bitmap_source FreeFrame
bitmap_promises = record {
  Good = IsReady;
  gives = λ f f' fr good e. subst (Given f) e (bitmap_gives f good);
  stops = λ f f' good e. subst (Given f) e (bitmap_gives f good);
}
