-- ===== src/Memory/FreeList/Room.antt =====
-- When no hole fits a request, no free block of the size lies at the alignment: free bytes that
-- follow one another lie in one hole.
use aion_so.Base.{
  ℕ, ◌+◌, ◌%◌, ◌≤◌, ◌<◌, ◌≡◌, inl, inr, refl, Bool, true, false, ◌||◌, leb, List, [], ◌∷◌, arith,
  word_size, Bool-cases,
}
use aion_so.Memory.FreeList.Holes.{Extent, Ordered, inside, is_free, free-from}
use aion_so.Memory.FreeList.Fitting.{fit-none}
use aion_so.Memory.FreeList.Carving.{NoneFits}

-- Every byte of the block is free.
abbrev pub AllFree : List Extent → ℕ → ℕ → Type 0
AllFree holes b size = (x : ℕ) → inside b size x ≡ true → is_free holes x ≡ true

free-elsewhere :
    (a s x : ℕ) (others : Bool) → (inside a s x || others) ≡ true → a + s ≤ x → others ≡ true
free-elsewhere a s x others h above = ground arith

past_hole :
    (a s b : ℕ) (others : Bool)
    → (inside a s b || others) ≡ true
    → inside a s b ≡ false
    → (others ≡ true → a + s + 1 ≤ b)
    → a + s + 1 ≤ b
past_hole a s b true h out far = far refl
past_hole a s b false h out far = absurd (ground arith)

pub no_room :
    (size align lo hi b : ℕ) (holes : List Extent)
    → 0 < size
    → 0 < align
    → hi < word_size
    → Ordered lo hi holes
    → NoneFits size align holes
    → b % align ≡ 0
    → AllFree holes b size
    → ⊥
no_room size align lo hi b [] some' pos small o none' multiple free =
    let h : false ≡ true = free b (ground arith) in absurd (ground arith)
no_room size align lo hi b (e ∷ es) some' pos small (le, _, _, _, end', o) (full, none') multiple
      free =
    elim (Bool-cases (inside e.addr e.size b)) [
      | inl here ↦ elim (Bool-cases (leb (b + size) (e.addr + e.size))) [
        | inl whole ↦
            fit-none e.addr (e.addr + e.size) size align b pos (omega arith) full (ground arith)
              multiple (ground arith)
        | inr over ↦
            let gap : is_free (e ∷ es) (e.addr + e.size) ≡ true =
              free (e.addr + e.size) (ground arith) in
            let next : is_free es (e.addr + e.size) ≡ true =
              free-elsewhere e.addr e.size (e.addr + e.size) (is_free es (e.addr + e.size)) gap
                (omega arith) in
            absurd (omega (arith, free-from (e.addr + e.size + 1) hi (e.addr + e.size) es o next))
      ]
      | inr out ↦
          let behind : e.addr + e.size + 1 ≤ b =
            past_hole e.addr e.size b (is_free es b) (free b (ground arith)) out
              (free-from (e.addr + e.size + 1) hi b es o) in
          no_room size align (e.addr + e.size + 1) hi b es some' pos small o none' multiple
            (λ x within.
              free-elsewhere e.addr e.size x (is_free es x) (free x within) (ground arith))
    ]
