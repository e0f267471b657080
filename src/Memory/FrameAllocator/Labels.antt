-- ===== src/Memory/FrameAllocator/Labels.antt =====
-- The purpose table: what `set_purpose` writes is what `purpose_of` reads.
use aion_so.Base.{
  ℕ, ◌*◌, ◌≤◌, ◌<◌, ◌≡◌, ◌≢◌, ◌⊎◌, ap, ◌∙◌, true, false, List, arith, length, inl, inr, Option,
  some, none, Option-cases, get_elem?-set_self, get_elem?-set_ne, length-set,
}
use aion_so.Hal.Frame.{PhysFrame, number}
use aion_so.Memory.FrameAllocator.Purposes.{
  FramePurpose, from_byte, from_byte-to_byte, from_byte-zero, is_purpose_lem, is_purpose_refl,
}
use aion_so.Memory.FrameAllocator.Invariant.{IsValid}
use aion_so.Memory.FrameAllocator.Allocate.{manages_number-congr}
use aion_so.Memory.FrameAllocator.Release.{mislabelled}
use aion_so.Memory.FrameAllocator.{Allocator, purpose_of, set_purpose, byte_of}

-- A table, if there is one, has a byte for every frame of the bitmap.
abbrev Covers : Option (List ℕ) → ℕ → Type 0
Covers none n = Unit {0}
Covers (some t) n = n ≤ length t

abbrev pub IsCovered : Allocator → Type 0
IsCovered a = Covers a.purposes (length a.bitmap * 64)

from_byte-byte_of : (q : Option FramePurpose) → from_byte (byte_of q) ≡ q
unfolding byte_of
from_byte-byte_of none = from_byte-zero
from_byte-byte_of (some p) = from_byte-to_byte p

-- Everything but the table stays.
pub record SameBut (a b : Allocator) : Type 0 where
  pub bitmap : b.bitmap ≡ a.bitmap
  pub map : b.map ≡ a.map
  pub flag : b.boot_services_reclaimed ≡ a.boot_services_reclaimed
  pub free : b.free ≡ a.free
  pub next_word : b.next_word ≡ a.next_word

pub set_purpose-SameBut :
    (a : Allocator) (f : PhysFrame) (q : Option FramePurpose) → SameBut a (set_purpose a f q)
unfolding set_purpose
set_purpose-SameBut a f q = ground arith

pub set_purpose-IsCovered :
    (a : Allocator) (f : PhysFrame) (q : Option FramePurpose)
    → IsCovered a
    → IsCovered (set_purpose a f q)
unfolding set_purpose
set_purpose-IsCovered a f q c = elim (Option-cases a.purposes) [
  | inl e ↦ ground arith
  | inr (t, e) ↦ ground (arith, length-set t (number f) (byte_of q))
]

pub SameBut-IsValid : (a b : Allocator) → SameBut a b → IsValid a → IsValid b
SameBut-IsValid a b s v = record {
  words = ground arith;
  fits = ground arith;
  counted = ground arith;
  managed = λ g h off.
      manages_number-congr b a g (ap length s.bitmap) s.map s.flag
      ∙ v.managed g (ground (arith, ap length s.bitmap)) (ground arith);
  searched = ground arith;
}

-- With no table nobody has a purpose. With one, the frame has the purpose written.
pub purpose_of-set_purpose :
    (a : Allocator) (f : PhysFrame) (q : Option FramePurpose)
    → IsCovered a
    → number f < length a.bitmap * 64
    → (purpose_of (set_purpose a f q) f ≡ q) ⊎ (a.purposes ≡ none)
unfolding purpose_of set_purpose
purpose_of-set_purpose a f q c h = elim (Option-cases a.purposes) [
  | inl e ↦ inr e
  | inr (t, e) ↦
      inl (ground (arith, from_byte-byte_of q, get_elem?-set_self t (number f) (byte_of q)))
]

pub purpose_of-set_purpose_ne :
    (a : Allocator) (f h : PhysFrame) (q : Option FramePurpose)
    → number f ≢ number h
    → purpose_of (set_purpose a f q) h ≡ purpose_of a h
unfolding purpose_of set_purpose
purpose_of-set_purpose_ne a f h q ne = elim (Option-cases a.purposes) [
  | inl e ↦ ground arith
  | inr (t, e) ↦ ground (arith, get_elem?-set_ne t (number f) (number h) (byte_of q) ne)
]

-- `deallocate_as` objects exactly when purposes are recorded and the frame has another one.
pub mislabelled_cases :
    (a : Allocator) (p : FramePurpose) (actual : Option FramePurpose)
    → ((mislabelled a p actual ≡ true) × (a.purposes ≢ none) × (actual ≢ some p))
      ⊎ ((mislabelled a p actual ≡ false) × ((a.purposes ≡ none) ⊎ (actual ≡ some p)))
unfolding mislabelled
mislabelled_cases a p none = ground arith
mislabelled_cases a p (some q) = ground (arith, is_purpose_lem q p, is_purpose_refl p)

pub IsCovered-congr :
    (a b : Allocator)
    → b.purposes ≡ a.purposes
    → length b.bitmap ≡ length a.bitmap
    → IsCovered a
    → IsCovered b
IsCovered-congr a b e l c = rw (e, l) c
