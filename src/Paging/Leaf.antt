-- ===== src/Paging/Leaf.antt =====
-- arch/x86_64/src/paging.rs: the leaf cell of a page, and what a write there changes.
use Prim.Native.Nat.{bit_and}
use aion_so.Base.{
  ℕ, ◌/◌, ◌%◌, ◌+◌, ◌≡◌, refl, sym, ap, ◌∙◌, Bool, true, false, none, some, arith, ◌≢◌, inl, inr,
  Bool-cases, length,
}
use aion_so.Paging.Entries.{is_set, present, table_indices, index_at, is_canonical, address_mask}
use aion_so.Paging.Bits.{Reads, IsFrame, small_page}
use aion_so.Base.Masks.{and-ones}
use aion_so.Paging.Tree.{IsTree, cell_of, stored_same, cell_of_inj}
use aion_so.Paging.Walks.{
  cell_of-stored, stored-IsTree, translate_from-cell, translate_from-leaf, translate_from-empty,
}
use aion_so.Paging.Indices.{
  table_indices_bounds, indices_of_page, canonical_of_page, page_of_indices, length-table_indices,
}
use aion_so.Paging.{PageTables, translate, translate_from, resolved, stored}

-- Tables that translate alike.
abbrev pub Untouched : PageTables → PageTables → Type 0
Untouched t t' = (va : ℕ) → translate t' va ≡ translate t va

pub translate-Alike :
    (t t' : PageTables) (va : ℕ)
    → t'.root ≡ t.root
    → translate_from t'.access.entries va 0 (table_indices va) t.root true
      ≡ translate_from t.access.entries va 0 (table_indices va) t.root true
    → translate t' va ≡ translate t va
unfolding translate
translate-Alike t t' va r e = rw (r, e) refl

pub translate_at :
    (t : PageTables) (va : ℕ)
    → is_canonical va ≡ true
    → translate t va ≡ translate_from t.access.entries va 0 (table_indices va) t.root true
unfolding translate
translate_at t va c = rw c refl

pub translate_not : (t : PageTables) (va : ℕ) → is_canonical va ≡ false → translate t va ≡ none
unfolding translate
translate_not t va c = rw c refl

pub resolved_leaf :
    (va a e : ℕ) (w : Bool)
    → IsFrame a
    → bit_and e address_mask ≡ a
    → resolved va 3 e w ≡ record { phys_addr = a + va % 4096; is_writable = w; size = 4096 }
unfolding resolved
resolved_leaf va a e w f p = rw (p, small_page a f, and-ones 12 va) refl

-- A leaf written at the cell of `page`.
module _ (rank : ℕ → ℕ) (t : PageTables) (tr : IsTree rank t.access.entries) (top : rank t.root ≡ 0)
    (page u : ℕ) (at : rank u ≡ 3) (canonical : is_canonical page ≡ true)
    (cell : cell_of t.access.entries (table_indices page) t.root ≡ some (u, index_at page 12))
    (t' : PageTables) (v : ℕ)
    (written : t'.access.entries ≡ stored t.access.entries u (index_at page 12) v)
    (root : t'.root ≡ t.root) where
  pub four : (va : ℕ) → length (table_indices va) ≡ 4
  four va = length-table_indices va

  pub written_others : (va : ℕ) → va / 4096 ≢ page / 4096 → translate t' va ≡ translate t va
  written_others va ne = elim (Bool-cases (is_canonical va)) [
    | inr off ↦ translate_not t' va off ∙ sym (translate_not t va off)
    | inl on ↦ translate-Alike t t' va root (
        rw written (
          translate_from-leaf rank t.access.entries tr (table_indices va) t.root 0 va u
            (index_at page 12) v true (table_indices_bounds va) top (omega (arith, four va)) at
            (λ q. ne (
              page_of_indices va page on canonical
                (cell_of_inj rank t.access.entries tr (table_indices va) (table_indices page) t.root
                  t.root _ (table_indices_bounds va) (table_indices_bounds page) refl
                  (omega (arith, top, length-table_indices va)) (four va ∙ sym (four page)) q
                  cell).1))))
  ]

  pub cell_of_va :
      (va : ℕ)
      → va / 4096 ≡ page / 4096
      → cell_of t.access.entries (table_indices va) t.root ≡ some (u, index_at page 12)
  cell_of_va va e = rw (indices_of_page va page e) cell

  pub written_empty :
      is_set (t.access.entries u (index_at page 12)) present ≡ false
      → (va : ℕ) → va / 4096 ≡ page / 4096
      → translate t va ≡ none
  written_empty off va e =
      translate_at t va (canonical_of_page va page e ∙ canonical)
      ∙ translate_from-empty rank t.access.entries tr (table_indices va) t.root 0 va
          (u, index_at page 12) true (table_indices_bounds va) top (omega (arith, four va))
          (cell_of_va va e) off

  pub written-IsTree : IsTree rank t'.access.entries
  written-IsTree = rw written (stored-IsTree rank t.access.entries u (index_at page 12) v tr at)

  pub written_cell :
      (va : ℕ)
      → va / 4096 ≡ page / 4096
      → cell_of t'.access.entries (table_indices va) t'.root ≡ some (u, index_at page 12)
  written_cell va e =
      rw (written, root)
        (cell_of-stored rank t.access.entries u (index_at page 12) v tr at (table_indices va) t.root
            (table_indices_bounds va) (omega (arith, top, four va))
          ∙ cell_of_va va e)

  pub written_leaf : t'.access.entries u (index_at page 12) ≡ v
  written_leaf = rw written (stored_same t.access.entries u (index_at page 12) v)

  pub written_there :
      (a : ℕ) (w : Bool)
      → IsFrame a
      → Reads v a w
      → (va : ℕ) → va / 4096 ≡ page / 4096
      → translate t' va ≡ some (record { phys_addr = a + va % 4096; is_writable = w; size = 4096 })
  written_there a w f r va e =
      let r' : Reads (t'.access.entries u (index_at page 12)) a w = rw written_leaf r in
      translate_at t' va (canonical_of_page va page e ∙ canonical)
      ∙ translate_from-cell rank t'.access.entries written-IsTree (table_indices va) t'.root 0 va
          (u, index_at page 12) true w (table_indices_bounds va) (ap rank root ∙ top)
          (omega (arith, four va)) (written_cell va e) r'.is_present r'.writes
      ∙ ap some (resolved_leaf va a _ w f r'.points)

  pub written_none :
      is_set v present ≡ false → (va : ℕ) → va / 4096 ≡ page / 4096 → translate t' va ≡ none
  written_none off va e =
      translate_at t' va (canonical_of_page va page e ∙ canonical)
      ∙ translate_from-empty rank t'.access.entries written-IsTree (table_indices va) t'.root 0 va
          (u, index_at page 12) true (table_indices_bounds va) (ap rank root ∙ top)
          (omega (arith, four va)) (written_cell va e) (rw written_leaf off)
