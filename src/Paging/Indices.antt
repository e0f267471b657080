-- ===== src/Paging/Indices.antt =====
-- arch/x86_64/src/paging.rs: an address is its four indices and its offset.
use aion_so.Base.{
  ℕ, zero, suc, ◌/◌, ◌%◌, ◌^◌, ◌<◌, ◌≡◌, refl, sym, ap, ◌∙◌, true, List, [], ◌∷◌, arith, ◌⊎◌,
  length,
}
use aion_so.Base.Masks.{and-ones}
use aion_so.Paging.Entries.{table_indices, index_at, is_canonical}
use aion_so.Paging.Tree.{IsIndices}

pub index_at-mod : (va shift : ℕ) → index_at va shift ≡ (va / 2 ^ shift) % 512
unfolding index_at
index_at-mod va shift = and-ones 9 (va / 2 ^ shift)

pub index_at_lt : (va shift : ℕ) → index_at va shift < 512
index_at_lt va shift = omega (arith, index_at-mod va shift)

pub table_indices_bounds : (va : ℕ) → IsIndices (table_indices va)
unfolding table_indices
table_indices_bounds va =
    (index_at_lt va 39, (index_at_lt va 30, (index_at_lt va 21, (index_at_lt va 12, tt))))

indices_are :
    (va : ℕ)
    → table_indices va
      ≡ ((va / 2 ^ 39) % 512 ∷ (va / 2 ^ 30) % 512 ∷ (va / 2 ^ 21) % 512 ∷ (va / 2 ^ 12) % 512 ∷ [])
unfolding table_indices
indices_are va =
    rw (index_at-mod va 39, index_at-mod va 30, index_at-mod va 21, index_at-mod va 12) refl

-- Two addresses of a page have its indices.
pub indices_of_page :
    (va page : ℕ) → va / 4096 ≡ page / 4096 → table_indices va ≡ table_indices page
indices_of_page va page h =
    let a : va / 2 ^ 39 ≡ page / 2 ^ 39 = omega arith in
    let b : va / 2 ^ 30 ≡ page / 2 ^ 30 = omega arith in
    let c : va / 2 ^ 21 ≡ page / 2 ^ 21 = omega arith in
    let d : va / 2 ^ 12 ≡ page / 2 ^ 12 = omega arith in
    rw (indices_are va, indices_are page, a, b, c, d) refl

pub canonical_of_page :
    (va page : ℕ) → va / 4096 ≡ page / 4096 → is_canonical va ≡ is_canonical page
unfolding is_canonical
canonical_of_page va page h = let e : va / 2 ^ 47 ≡ page / 2 ^ 47 = omega arith in rw e refl

entry_of : List ℕ → ℕ → ℕ
entry_of [] k = 0
entry_of (x ∷ xs) zero = x
entry_of (x ∷ xs) (suc k) = entry_of xs k

-- Two canonical addresses with the same indices are in one page.
pub page_of_indices :
    (va page : ℕ)
    → is_canonical va ≡ true
    → is_canonical page ≡ true
    → table_indices va ≡ table_indices page
    → va / 4096 ≡ page / 4096
unfolding is_canonical entry_of
page_of_indices va page cv cp e =
    let same : (va / 2 ^ 39) % 512
          ∷ (va / 2 ^ 30) % 512
          ∷ (va / 2 ^ 21) % 512
          ∷ (va / 2 ^ 12) % 512
          ∷ []
        ≡ (page / 2 ^ 39) % 512
          ∷ (page / 2 ^ 30) % 512
          ∷ (page / 2 ^ 21) % 512
          ∷ (page / 2 ^ 12) % 512
          ∷ [] =
      sym (indices_are va) ∙ e ∙ indices_are page in
    near va page cv cp (ap (λ l. entry_of l 0) same) (ap (λ l. entry_of l 1) same)
      (ap (λ l. entry_of l 2) same) (ap (λ l. entry_of l 3) same)
  where
    near :
        (va page : ℕ)
        → is_canonical va ≡ true
        → is_canonical page ≡ true
        → (va / 2 ^ 39) % 512 ≡ (page / 2 ^ 39) % 512
        → (va / 2 ^ 30) % 512 ≡ (page / 2 ^ 30) % 512
        → (va / 2 ^ 21) % 512 ≡ (page / 2 ^ 21) % 512
        → (va / 2 ^ 12) % 512 ≡ (page / 2 ^ 12) % 512
        → va / 4096 ≡ page / 4096
    near va page cv cp a b c d =
        let top : va / 2 ^ 47 ≡ va / 2 ^ 39 / 256 = omega arith in
        let top' : page / 2 ^ 47 ≡ page / 2 ^ 39 / 256 = omega arith in
        let v : (va / 2 ^ 47 ≡ 0) ⊎ (va / 2 ^ 47 ≡ 0x1FFFF) = ground arith in
        let p : (page / 2 ^ 47 ≡ 0) ⊎ (page / 2 ^ 47 ≡ 0x1FFFF) = ground arith in
        let first : va / 2 ^ 39 ≡ page / 2 ^ 39 = omega arith in
        let second : va / 2 ^ 30 ≡ page / 2 ^ 30 = omega arith in
        let third : va / 2 ^ 21 ≡ page / 2 ^ 21 = omega arith in omega arith

pub length-table_indices : (va : ℕ) → length (table_indices va) ≡ 4
unfolding table_indices
length-table_indices va = refl
