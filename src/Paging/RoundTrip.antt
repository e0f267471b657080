-- ===== src/Paging/RoundTrip.antt =====
-- arch/x86_64/src/paging.rs: `unmap` of what `map` has mapped.
use aion_so.Base.{ℕ, ◌/◌, ◌≤◌, ◌≡◌, refl, sym, ap, ◌∙◌, true, none, some, some_inj, arith, inl, inr}
use native.Mathlib.Decide.{ℕ_discrete}
use aion_so.Hal.Addr.{phys}
use aion_so.Hal.Frame.{PhysFrame}
use aion_so.Hal.Paging.{PageFlags}
use aion_so.Paging.Entries.{kernel_space_base, is_canonical}
use aion_so.Paging.Bits.{IsFrame}
use aion_so.Paging.Descent.{Promises}
use aion_so.Paging.Mapping.{IsSound, map_lem}
use aion_so.Paging.Outcomes.{Mapped}
use aion_so.Paging.Unmapping.{IsSpace, unmap_lem}
use aion_so.Paging.{Translation, PageTables, Mapper, FrameAllocator, map, unmap, translate}

start_of : (f g : PhysFrame) → f.start.as_u64 ≡ g.start.as_u64 → f ≡ g
start_of f g e = ap (λ a. record { start = phys a }) e

frame_at : (r s : Translation) → some r ≡ some s → r.phys_addr ≡ s.phys_addr
frame_at r s e = ap (λ (x : Translation). x.phys_addr) (some_inj _ _ e)

-- On page tables that form a tree with writable links and with no table among the free frames:
-- after a page of kernel space is mapped, `unmap` gives back the frame it was mapped to, and every
-- address translates as it did before the two calls.
pub map-unmap :
    {F : Type 0} (source : FrameAllocator F) (Free : F → ℕ → Type 0) (laws : Promises source Free)
    (m : Mapper F) (page : ℕ) (frame : PhysFrame) (flags : PageFlags)
    → IsSound source Free laws m
    → is_canonical page ≡ true
    → kernel_space_base ≤ page
    → IsFrame frame.start.as_u64
    → (map source m page frame flags).1 ≡ none
    → let mapped = (map source m page frame flags).0.tables in
      ((unmap mapped page).1 ≡ inr frame)
      × ((va : ℕ) → translate (unmap mapped page).0 va ≡ translate m.tables va)
map-unmap source Free laws m page frame flags s canonical high f ok =
    let (sound, (when_ok, _)) = map_lem source Free laws m page frame flags s canonical f in
    let done : Mapped m.tables (map source m page frame flags).0.tables page frame flags =
      when_ok ok in
    let mapped : PageTables = (map source m page frame flags).0.tables in
    let space : IsSpace sound.rank mapped = record { tree = sound.tree; top = sound.top } in
    elim (unmap_lem sound.rank mapped space page canonical).1 [
      | inl (err, e, kept) ↦ absurd (kept.not_small (ground arith) _ (done.there page refl) refl)
      | inr (frame', e, u) ↦
          let (w, was) = u.was page refl in
          let same : frame' ≡ frame =
            start_of frame' frame (omega (arith, frame_at _ _ (sym was ∙ done.there page refl))) in
          (
            e ∙ ap inr same,
            λ va. elim (ℕ_discrete (va / 4096) (page / 4096)) [
              | yes h ↦ u.gone va h ∙ sym (done.was_free va h)
              | no h ↦ u.others va h ∙ done.others va h
            ],
          )
    ]
