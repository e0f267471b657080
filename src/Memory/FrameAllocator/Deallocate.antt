-- ===== src/Memory/FrameAllocator/Deallocate.antt =====
-- A frame given back undoes its allocation.
use aion_so.Base.{ℕ, ◌≡◌, ◌⊎◌, ap, ◌∙◌, true, arith, length, inl, inr, Option, some, none}
use aion_so.Hal.Frame.{PhysFrame, number}
use aion_so.Memory.FrameAllocator.BitWords.{bit}
use aion_so.Memory.FrameAllocator.Purposes.{FramePurpose}
use aion_so.Memory.FrameAllocator.Invariant.{IsValid}
use aion_so.Memory.FrameAllocator.Allocate.{Took, allocate_lem, manages_number-congr}
use aion_so.Memory.FrameAllocator.Release.{deallocate_as}
use aion_so.Memory.FrameAllocator.Labels.{
  IsCovered, SameBut, set_purpose-SameBut, SameBut-IsValid, purpose_of-set_purpose, IsCovered-congr,
}
use aion_so.Memory.FrameAllocator.{Allocator, ok, manages, set_purpose, allocate, allocate_for}
use aion_so.Memory.FrameAllocator.Freeing.{deallocate_as_lem}

manages-set_purpose :
    (a b : Allocator) (f : PhysFrame) (q : Option FramePurpose)
    → Took a f b
    → manages (set_purpose b f q) f ≡ true
unfolding manages
manages-set_purpose a b f q t =
    let s : SameBut b (set_purpose b f q) = set_purpose-SameBut b f q in
    manages_number-congr (set_purpose b f q) a (number f) (ap length s.bitmap ∙ t.size)
      (s.map ∙ t.map) (s.flag ∙ t.flag)
    ∙ t.managed

purposes-none :
    (b : Allocator) (f : PhysFrame) (q : Option FramePurpose)
    → b.purposes ≡ none
    → (set_purpose b f q).purposes ≡ none
unfolding set_purpose
purposes-none b f q e = ground arith

-- A frame given back undoes its allocation.
abbrev pub RoundTrip : Allocator → FramePurpose → Option PhysFrame × Allocator → Type 0
RoundTrip a p r =
    (r ≡ (none, a))
    ⊎ ((f : PhysFrame) × (a' a'' : Allocator) × (r ≡ (some f, a'))
        × (deallocate_as a' f p ≡ (ok, a''))
        × IsValid a''
        × ((g : ℕ) → bit a''.bitmap g ≡ bit a.bitmap g)
        × (a''.free ≡ a.free))

pub allocate_for-some :
    (a b : Allocator) (f : PhysFrame) (p : FramePurpose)
    → allocate a ≡ (some f, b)
    → allocate_for a p ≡ (some f, set_purpose b f (some p))
unfolding allocate_for
allocate_for-some a b f p e = ground arith

pub allocate_for-none :
    (a : Allocator) (p : FramePurpose) → allocate a ≡ (none, a) → allocate_for a p ≡ (none, a)
unfolding allocate_for
allocate_for-none a p e = ground arith

Took-RoundTrip :
    (a b : Allocator) (f : PhysFrame) (p : FramePurpose)
    → IsValid b
    → IsCovered a
    → Took a f b
    → (a'' : Allocator) × (deallocate_as (set_purpose b f (some p)) f p ≡ (ok, a''))
      × IsValid a''
      × ((g : ℕ) → bit a''.bitmap g ≡ bit a.bitmap g)
      × (a''.free ≡ a.free)
Took-RoundTrip a b f p v c t =
    let s : SameBut b (set_purpose b f (some p)) = set_purpose-SameBut b f (some p) in
    let m : manages (set_purpose b f (some p)) f ≡ true = manages-set_purpose a b f (some p) t in
    let on : bit (set_purpose b f (some p)).bitmap (number f) ≡ true =
      ap (λ w. bit w (number f)) s.bitmap ∙ ground (arith, t.only (number f)) in
    elim (deallocate_as_lem (set_purpose b f (some p)) f p (SameBut-IsValid b _ s v)) [
      | inl (recorded, other, _) ↦
          absurd
            (elim (purpose_of-set_purpose b f (some p) (IsCovered-congr a b t.table t.size c)
              (omega (arith, t.inside, t.size))) [
                | inl e ↦ other e
                | inr e ↦ recorded (purposes-none b f (some p) e)
              ])
      | inr (_, inl (refused, _)) ↦ absurd (ground arith)
      | inr (_, inr (inl (_, off, _))) ↦ absurd (ground arith)
      | inr (_, inr (inr (a'', e, freed))) ↦ (
        a'',
        e,
        freed.valid,
        λ g. ground (
          arith,
          freed.only g,
          ap (λ w. bit w g) s.bitmap,
          t.only g,
          t.was_free,
          ap (bit a.bitmap) {x = number f} {y = g},
        ),
        omega (arith, freed.one_more, s.free, t.one_less),
      )
    ]

-- On a valid allocator whose purpose table, if any, covers the bitmap, `allocate_for` either hands
-- out nothing and changes nothing, or `deallocate_as` under the same purpose accepts the frame that
-- it handed out and then every bit and the count are as they were, on a valid allocator.
pub allocate-deallocate :
    (a : Allocator) (p : FramePurpose) → IsValid a → IsCovered a → RoundTrip a p (allocate_for a p)
allocate-deallocate a p v c = elim (allocate_lem a v) [
  | inl (e, _, _) ↦ inl (allocate_for-none a p e)
  | inr (f, b, e, t, vb) ↦
      let (a'', freed, valid, bits, count) = Took-RoundTrip a b f p vb c t in
      inr (f, set_purpose b f (some p), a'', allocate_for-some a b f p e, freed, valid, bits, count)
]
