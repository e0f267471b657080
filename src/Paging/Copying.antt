-- ===== src/Paging/Copying.antt =====
-- arch/x86_64/src/paging.rs: the entries that `new_process_space` copies, and which addresses they
-- stand for.
use aion_so.Base.{
  ℕ, zero, suc, ◌/◌, ◌^◌, ◌+◌, ◌<◌, ◌≤◌, ◌≡◌, refl, ◌∙◌, true, ◌==◌, arith, ◌≢◌, inl, inr, ◌⊎◌,
  Bool-cases, ==→ne, ==→eq,
}
use aion_so.Paging.Entries.{kernel_space_base, index_at, is_canonical}
use aion_so.Paging.Tree.{Entries, stored_other, stored_same}
use aion_so.Paging.Indices.{index_at-mod}
use aion_so.Paging.Spaces.{copied}

pub copied_other :
    (e : Entries) (old new first c a i : ℕ) → a ≢ new → copied e old new first c a i ≡ e a i
unfolding copied
copied_other e old new first zero a i ne = refl
copied_other e old new first (suc c) a i ne =
    stored_other (copied e old new first c) new (first + c) _ a i (λ p _. ne p)
    ∙ copied_other e old new first c a i ne

pub copied_below :
    (e : Entries) (old new first c i : ℕ) → i < first → copied e old new first c new i ≡ e new i
unfolding copied
copied_below e old new first zero i h = refl
copied_below e old new first (suc c) i h =
    stored_other (copied e old new first c) new (first + c) _ new i (λ _ p. omega (arith, p))
    ∙ copied_below e old new first c i h

pub copied_at :
    (e : Entries) (old new first c i : ℕ)
    → old ≢ new
    → first ≤ i
    → i < first + c
    → copied e old new first c new i ≡ e old i
unfolding copied
copied_at e old new first zero i ne lo hi = absurd (omega arith)
copied_at e old new first (suc c) i ne lo hi = elim (Bool-cases (i == first + c)) [
  | inl p ↦
      let at : i ≡ first + c = ==→eq i (first + c) p in
      rw at (
        stored_same (copied e old new first c) new (first + c) _
        ∙ copied_other e old new first c old (first + c) ne)
  | inr p ↦
      stored_other (copied e old new first c) new (first + c) _ new i
        (λ _ q. ==→ne i (first + c) p q)
      ∙ copied_at e old new first c i ne lo (ground arith)
]

pub high_index : (va : ℕ) → kernel_space_base ≤ va → is_canonical va ≡ true → 256 ≤ index_at va 39
unfolding is_canonical
high_index va h c =
    let top : (va / 2 ^ 47 ≡ 0) ⊎ (va / 2 ^ 47 ≡ 0x1FFFF) = ground arith in
    omega (arith, index_at-mod va 39)

pub low_index : (va : ℕ) → va < kernel_space_base → is_canonical va ≡ true → index_at va 39 < 256
unfolding is_canonical
low_index va h c =
    let top : (va / 2 ^ 47 ≡ 0) ⊎ (va / 2 ^ 47 ≡ 0x1FFFF) = ground arith in
    omega (arith, index_at-mod va 39)
