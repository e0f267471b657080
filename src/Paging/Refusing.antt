-- ===== src/Paging/Refusing.antt =====
-- arch/x86_64/src/paging.rs: why `unmap` refuses a page.
use Prim.Native.Nat.{bit_and}
use aion_so.Base.{
  ℕ, suc, ◌+◌, ◌≡◌, refl, sym, ap, ◌∙◌, Bool, true, false, List, [], ◌∷◌, none, some, ltb, arith,
  ◌≢◌, inl, inr, ◌⊎◌, Bool-cases, length, ◌++◌,
}
use aion_so.Hal.Addr.{phys}
use aion_so.Hal.Frame.{PhysFrame, containing_address}
use aion_so.Hal.Paging.{UnmapError}
use aion_so.Paging.Entries.{
  is_set, present, huge, kernel_space_base, table_indices, index_at, is_canonical, address_mask,
}
use aion_so.Paging.Walks.{translate_from-empty}
use aion_so.Paging.Tree.{IsTree, Entries, links, points_to, visit-absent, visit-link}
use aion_so.Paging.Indices.{length-table_indices, index_at_lt, table_indices_bounds}
use aion_so.Paging.Leaf.{translate_at}
use aion_so.Paging.{Translation, PageTables, unmap, remove, find_table, translate, translate_from}
use aion_so.Paging.Finding.{find_table_link, find_table-cell, unmap-some}

-- A walk of `unmap` that meets an absent entry is a walk of `translate` that finds nothing.
find_table-absent :
    (m : Entries) (va k : ℕ) (is js : List ℕ) (t : ℕ) (w : Bool)
    → k + length is ≡ 3
    → find_table m is t ≡ inl UnmapError.not_mapped
    → translate_from m va k (is ++ js) t w ≡ none
unfolding find_table
find_table-absent m va k [] js t w d e = ground (arith, e)
find_table-absent m va k (i ∷ is) js t w d e = elim (Bool-cases (is_set (m t i) present)) [
  | inr off ↦ visit-absent m va k i (is ++ js) t w off
  | inl on ↦ elim (Bool-cases (is_set (m t i) huge)) [
    | inl big ↦ ground (arith, e, on, big)
    | inr small ↦
        let linked : links (m t i) ≡ true = ground (arith, on, small) in
        visit-link m va k i (is ++ js) t w (omega arith) linked
        ∙ find_table-absent m va (suc k) is js (points_to (m t i)) _ (omega arith)
            (sym (find_table_link m i is t linked) ∙ e)
  ]
]

find_table-outside :
    (m : Entries) (is : List ℕ) (t : ℕ) → find_table m is t ≢ inl UnmapError.outside_kernel_space
unfolding find_table
find_table-outside m [] t e = ground (arith, e)
find_table-outside m (i ∷ is) t e = elim (Bool-cases (is_set (m t i) present)) [
  | inr off ↦ ground (arith, e, off)
  | inl on ↦ elim (Bool-cases (is_set (m t i) huge)) [
    | inl big ↦ ground (arith, e, on, big)
    | inr small ↦
        find_table-outside m is (points_to (m t i))
          (sym (find_table_link m i is t (ground (arith, on, small))) ∙ e)
  ]
]

inl_inj : (x y : UnmapError) → ◌≡◌ {A = UnmapError ⊎ PhysFrame} (inl x) (inl y) → x ≡ y
inl_inj x y e = cc

-- Why a page was not unmapped.
pub record Kept (t : PageTables) (page : ℕ) (err : UnmapError) : Type 0 where
  pub outside : err ≡ UnmapError.outside_kernel_space → ltb page kernel_space_base ≡ true
  pub low : ltb page kernel_space_base ≡ true → err ≡ UnmapError.outside_kernel_space
  pub absent : err ≡ UnmapError.not_mapped → translate t page ≡ none
  pub not_small :
      ltb page kernel_space_base ≡ false
      → (r : Translation) → translate t page ≡ some r
      → r.size ≢ 4096

module _ (rank : ℕ → ℕ) (t : PageTables) (tr : IsTree rank t.access.entries) (top : rank t.root ≡ 0)
    (page : ℕ) (canonical : is_canonical page ≡ true) where
  answer_of : (r s : PageTables × (UnmapError ⊎ PhysFrame)) → r ≡ s → r.1 ≡ s.1
  answer_of r s e = ap (λ (x : PageTables × (UnmapError ⊎ PhysFrame)). x.1) e

  remove-refused :
      (r : UnmapError ⊎ ℕ)
      → find_table t.access.entries
          (index_at page 39 ∷ index_at page 30 ∷ index_at page 21 ∷ [])
          t.root
        ≡ r
      → (err : UnmapError) → remove t page r ≡ (t, inl err)
      → (err ≢ UnmapError.outside_kernel_space)
        × (err ≡ UnmapError.not_mapped → translate t page ≡ none)
  unfolding remove table_indices
  remove-refused (inl x) e err p =
      let same : x ≡ err = inl_inj _ _ (answer_of _ _ p) in
      (
        λ q. find_table-outside t.access.entries _ t.root (e ∙ ap inl (same ∙ q)),
        λ q.
            translate_at t page canonical
            ∙ find_table-absent t.access.entries page 0
                (index_at page 39 ∷ index_at page 30 ∷ index_at page 21 ∷ [])
                (index_at page 12 ∷ []) t.root true (omega arith) (e ∙ ap inl (same ∙ q)),
      )
  remove-refused (inr u) e err p =
      let (at, cells) =
        find_table-cell rank t.access.entries tr
          (index_at page 39 ∷ index_at page 30 ∷ index_at page 21 ∷ []) t.root u
          (index_at_lt page 39, (index_at_lt page 30, (index_at_lt page 21, tt)))
          (omega (arith, top)) e in
      elim (Bool-cases (is_set (t.access.entries u (index_at page 12)) present)) [
        | inl on ↦
            let done : (remove t page (inr u)).1
                ≡ inr (
                    containing_address
                      (phys (bit_and (t.access.entries u (index_at page 12)) address_mask))) =
              rw on refl in
            ground (arith, sym done ∙ answer_of _ _ p)
        | inr off ↦
            let done : (remove t page (inr u)).1 ≡ inl UnmapError.not_mapped = rw off refl in
            (
              λ q. ground (arith, sym done ∙ answer_of _ _ p ∙ ap inl q),
              λ q.
                  translate_at t page canonical
                  ∙ translate_from-empty rank t.access.entries tr (table_indices page) t.root 0 page
                      (u, index_at page 12) true (table_indices_bounds page) top
                      (omega (arith, length-table_indices page)) (cells (index_at page 12)) off,
            )
      ]

  pub unmap-Kept : (err : UnmapError) → unmap t page ≡ (t, inl err) → Kept t page err
  unfolding unmap
  unmap-Kept err p = elim (Bool-cases (ltb page kernel_space_base)) [
    | inl low ↦
        let done : unmap t page ≡ (t, inl UnmapError.outside_kernel_space) = rw low refl in
        let same : UnmapError.outside_kernel_space ≡ err =
          inl_inj _ _ (answer_of _ _ (sym done ∙ p)) in
        record {
          outside = λ q. low;
          low = λ q. sym same;
          absent = λ q. ground (arith, same ∙ q);
          not_small = λ h. ground (arith, low, h);
        }
    | inr high ↦
        let done : unmap t page
            ≡ remove t page (
                find_table t.access.entries
                  (index_at page 39 ∷ index_at page 30 ∷ index_at page 21 ∷ []) t.root) =
          rw high refl in
        let (not_outside, absent) = remove-refused _ refl err (sym done ∙ p) in
        record {
          outside = λ q. absurd (not_outside q);
          low = λ q. ground (arith, high, q);
          absent = absent;
          not_small = λ h r e z. unmap-some t page r canonical h e z err p;
        }
  ]
