-- ===== src/Paging/Finding.antt =====
-- arch/x86_64/src/paging.rs: the walk of `unmap` to the last table, beside that of `translate`.
use Prim.Native.Nat.{bit_and}
use aion_so.Base.{
  ℕ, zero, suc, ◌+◌, ◌<◌, ◌≡◌, refl, sym, ap, ◌∙◌, Bool, true, false, ◌&&◌, List, [], ◌∷◌, some,
  some_inj, ltb, arith, ◌≢◌, inl, inr, ◌⊎◌, Bool-cases, length, ◌++◌,
}
use aion_so.Hal.Addr.{phys}
use aion_so.Hal.Frame.{PhysFrame, containing_address}
use aion_so.Hal.Paging.{UnmapError}
use aion_so.Paging.Entries.{
  is_set, present, huge, writable, kernel_space_base, table_indices, index_at, is_canonical,
  address_mask,
}
use aion_so.Paging.Tree.{
  IsTree, IsIndices, cell_of_below, Entries, links, points_to, cell_of, cell_of_link, cell_of_step,
  visit-absent, visit-link,
}
use aion_so.Paging.Indices.{length-table_indices}
use aion_so.Paging.Leaf.{translate_at}
use aion_so.Paging.{
  Translation, PageTables, unmap, remove, find_table, translate, translate_from, resolved,
}

pub find_table_link :
    (m : Entries) (i : ℕ) (is : List ℕ) (t : ℕ)
    → links (m t i) ≡ true
    → find_table m (i ∷ is) t ≡ find_table m is (points_to (m t i))
unfolding find_table
find_table_link m i is t on = ground (arith, on)

pub find_table-cell :
    (rank : ℕ → ℕ) (m : Entries)
    → IsTree rank m
    → (is : List ℕ) (t u : ℕ) → IsIndices is
    → rank t + length is ≡ 3
    → find_table m is t ≡ inr u
    → (rank u ≡ 3) × ((j : ℕ) → cell_of m (is ++ j ∷ []) t ≡ some (u, j))
unfolding find_table cell_of
find_table-cell rank m tr [] t u hi d e =
    let same : t ≡ u = cc in (sym (ap rank same) ∙ omega arith, λ j. ap (λ x. some (x, j)) same)
find_table-cell rank m tr (i ∷ is) t u hi d e = elim (Bool-cases (links (m t i))) [
  | inr off ↦ ground arith
  | inl on ↦
      let (at, cells) =
        find_table-cell rank m tr is (points_to (m t i)) u hi.1
          (omega (arith, tr.deeper t i (omega arith) hi.0 on))
          (sym (find_table_link m i is t on) ∙ e) in
      (at, λ j. cell_of_below m i is j t on ∙ cells j)
]

pub cell-find_table :
    (m : Entries) (is : List ℕ) (t u j : ℕ)
    → cell_of m (is ++ j ∷ []) t ≡ some (u, j)
    → find_table m is t ≡ inr u
unfolding find_table cell_of
cell-find_table m [] t u j e =
    let same : t ≡ u = ap (λ (c : ℕ × ℕ). c.0) (some_inj _ _ e) in ap inr same
cell-find_table m (i ∷ []) t u j e =
    let (on, rest) = cell_of_step m i j [] t (u, j) e in
    find_table_link m i [] t on ∙ cell-find_table m [] (points_to (m t i)) u j rest
cell-find_table m (i ∷ (i' ∷ is)) t u j e =
    let (on, rest) = cell_of_step m i i' (is ++ j ∷ []) t (u, j) e in
    find_table_link m i (i' ∷ is) t on ∙ cell-find_table m (i' ∷ is) (points_to (m t i)) u j rest

size_of : (r s : Translation) → some r ≡ some s → r.size ≡ s.size
size_of r s e = ap (λ (x : Translation). x.size) (some_inj _ _ e)

-- A large page shows its size.
large_size :
    (m : Entries) (va k i : ℕ) (is : List ℕ) (t : ℕ) (w : Bool) (r : Translation)
    → k < 3
    → is_set (m t i) huge ≡ true
    → translate_from m va k (i ∷ is) t w ≡ some r
    → r.size ≢ 4096
unfolding translate_from resolved
large_size m va zero i is t w r lt big e z = ground (arith, big)
large_size m va (suc zero) i is t w r lt big e z = elim (Bool-cases (is_set (m t i) present)) [
  | inl on ↦
      let seen : translate_from m va 1 (i ∷ is) t w
          ≡ some (resolved va 1 (m t i) (w && is_set (m t i) writable)) =
        rw (on, big) refl in
      omega (arith, sym (size_of _ _ (sym e ∙ seen)) ∙ z)
  | inr off ↦ ground (arith, sym (visit-absent m va 1 i is t w off) ∙ e)
]
large_size m va (suc (suc zero)) i is t w r lt big e z =
    elim (Bool-cases (is_set (m t i) present)) [
      | inl on ↦
          let seen : translate_from m va 2 (i ∷ is) t w
              ≡ some (resolved va 2 (m t i) (w && is_set (m t i) writable)) =
            rw (on, big) refl in
          omega (arith, sym (size_of _ _ (sym e ∙ seen)) ∙ z)
      | inr off ↦ ground (arith, sym (visit-absent m va 2 i is t w off) ∙ e)
    ]
large_size m va (suc (suc (suc k))) i is t w r lt big e z = omega arith

-- A translation by a 4 KiB page was found in a leaf cell.
sized_cell :
    (m : Entries) (va k : ℕ) (is : List ℕ) (t : ℕ) (w : Bool) (r : Translation)
    → k + length is ≡ 4
    → translate_from m va k is t w ≡ some r
    → r.size ≡ 4096
    → (c : ℕ × ℕ) × (cell_of m is t ≡ some c) × (is_set (m c.0 c.1) present ≡ true)
unfolding cell_of translate_from
sized_cell m va k [] t w r d e z = ground arith
sized_cell m va k (i ∷ []) t w r d e z = elim (Bool-cases (is_set (m t i) present)) [
  | inr off ↦ ground (arith, sym (visit-absent m va k i [] t w off) ∙ e)
  | inl on ↦ ((t, i), refl, on)
]
sized_cell m va k (i ∷ (j ∷ js)) t w r d e z = elim (Bool-cases (is_set (m t i) present)) [
  | inr off ↦ ground (arith, sym (visit-absent m va k i (j ∷ js) t w off) ∙ e)
  | inl on ↦ elim (Bool-cases (is_set (m t i) huge)) [
    | inl big ↦ absurd (large_size m va k i (j ∷ js) t w r (omega arith) big e z)
    | inr small ↦
        let linked : links (m t i) ≡ true = ground (arith, on, small) in
        let (c, found, there) =
          sized_cell m va (suc k) (j ∷ js) (points_to (m t i)) _ r (omega arith)
            (sym (visit-link m va k i (j ∷ js) t w (omega arith) linked) ∙ e) z in
        (c, cell_of_link m i j js t linked ∙ found, there)
  ]
]

-- The leaf cell of a page is at its last index.
cell_of_last :
    (m : Entries) (i0 i1 i2 j t : ℕ) (c : ℕ × ℕ)
    → cell_of m (i0 ∷ i1 ∷ i2 ∷ j ∷ []) t ≡ some c
    → c.1 ≡ j
unfolding cell_of
cell_of_last m i0 i1 i2 j t c e =
    let (_, a) = cell_of_step m i0 i1 (i2 ∷ j ∷ []) t c e in
    let (_, b) = cell_of_step m i1 i2 (j ∷ []) _ c a in
    let (_, d) = cell_of_step m i2 j [] _ c b in sym (ap (λ (x : ℕ × ℕ). x.1) (some_inj _ _ d))

-- A page of kernel space that a 4 KiB page maps can be unmapped.
pub unmap-some :
    (t : PageTables) (page : ℕ) (r : Translation)
    → is_canonical page ≡ true
    → ltb page kernel_space_base ≡ false
    → translate t page ≡ some r
    → r.size ≡ 4096
    → (err : UnmapError) → unmap t page ≢ (t, inl err)
unfolding unmap remove table_indices
unmap-some t page r canonical high e z err bad =
    let (c, cell, on) =
      sized_cell t.access.entries page 0 (table_indices page) t.root true r
        (omega (arith, length-table_indices page)) (sym (translate_at t page canonical) ∙ e) z in
    let j : c.1 ≡ index_at page 12 = cell_of_last _ _ _ _ _ _ c cell in
    let found : find_table t.access.entries
          (index_at page 39 ∷ index_at page 30 ∷ index_at page 21 ∷ []) t.root
        ≡ inr c.0 =
      cell-find_table t.access.entries (index_at page 39 ∷ index_at page 30 ∷ index_at page 21 ∷ [])
        t.root c.0 (index_at page 12) (cell ∙ ap (λ x. some (c.0, x)) j) in
    let on' : is_set (t.access.entries c.0 (index_at page 12)) present ≡ true =
      ap (λ x. is_set (t.access.entries c.0 x) present) (sym j) ∙ on in
    let done : (unmap t page).1
        ≡ inr (
            containing_address
              (phys (bit_and (t.access.entries c.0 (index_at page 12)) address_mask))) =
      rw (high, found, on') refl in
    ground (arith, sym done ∙ ap (λ (x : PageTables × (UnmapError ⊎ PhysFrame)). x.1) bad)
