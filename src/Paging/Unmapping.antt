-- ===== src/Paging/Unmapping.antt =====
-- arch/x86_64/src/paging.rs: `unmap`, on every branch.
use Prim.Native.Nat.{bit_and}
use aion_so.Base.{
  ℕ, ◌/◌, ◌%◌, ◌+◌, ◌≡◌, refl, sym, ap, ◌∙◌, Bool, true, List, [], ◌∷◌, none, some, ltb, arith, ◌≢◌,
  inl, inr, ◌⊎◌, Bool-cases,
}
use aion_so.Hal.Addr.{phys, align_down}
use aion_so.Hal.Frame.{PhysFrame, containing_address}
use aion_so.Hal.Paging.{UnmapError}
use aion_so.Paging.Entries.{
  is_set, present, writable, kernel_space_base, table_indices, index_at, is_canonical, address_mask,
}
use aion_so.Paging.Bits.{address-IsFrame, is_set_zero}
use aion_so.Paging.Tree.{Entries, IsTree, cell_of}
use aion_so.Paging.Walks.{translate_from-cell}
use aion_so.Paging.Indices.{
  index_at_lt, table_indices_bounds, indices_of_page, canonical_of_page, length-table_indices,
}
use aion_so.Paging.Finding.{find_table-cell}
use aion_so.Paging.Refusing.{Kept, unmap-Kept}
use aion_so.Paging.Leaf.{translate_at, resolved_leaf, written_others, written_none, written-IsTree}
use aion_so.Paging.{PageTables, unmap, remove, find_table, translate, stored, write}

-- Page tables that are a tree with writable links.
pub record IsSpace (rank : ℕ → ℕ) (t : PageTables) : Type 0 where
  pub tree : IsTree rank t.access.entries
  pub top : rank t.root ≡ 0

-- `page` was mapped to `frame`, and is no longer; nothing else has changed.
pub record Unmapped (t t' : PageTables) (page : ℕ) (frame : PhysFrame) : Type 0 where
  pub was :
      (va : ℕ)
      → va / 4096 ≡ page / 4096
      → (w : Bool) × (translate t va
          ≡ some
              (record { phys_addr = frame.start.as_u64 + va % 4096; is_writable = w; size = 4096 }))
  pub gone : (va : ℕ) → va / 4096 ≡ page / 4096 → translate t' va ≡ none
  pub others : (va : ℕ) → va / 4096 ≢ page / 4096 → translate t' va ≡ translate t va

frame_of :
    (e : ℕ)
    → (containing_address (phys (bit_and e address_mask))).start.as_u64 ≡ bit_and e address_mask
unfolding containing_address align_down
frame_of e = omega (arith, (address-IsFrame e).aligned)

module _ (rank : ℕ → ℕ) (t : PageTables) (s : IsSpace rank t) (page : ℕ)
    (canonical : is_canonical page ≡ true) where
  abbrev uppers : List ℕ
  uppers = index_at page 39 ∷ index_at page 30 ∷ index_at page 21 ∷ []

  abbrev Removes : PageTables × (UnmapError ⊎ PhysFrame) → Type 0
  Removes r =
      IsSpace rank r.0
      × (((err : UnmapError) × (r ≡ (t, inl err)))
          ⊎ ((frame : PhysFrame) × (r.1 ≡ inr frame) × Unmapped t r.0 page frame))

  abbrev pub Answers : PageTables × (UnmapError ⊎ PhysFrame) → Type 0
  Answers r =
      IsSpace rank r.0
      × (((err : UnmapError) × (r ≡ (t, inl err)) × Kept t page err)
          ⊎ ((frame : PhysFrame) × (r.1 ≡ inr frame) × Unmapped t r.0 page frame))

  remove_lem :
      (r : UnmapError ⊎ ℕ)
      → find_table t.access.entries uppers t.root ≡ r
      → Removes (remove t page r)
  unfolding remove write table_indices
  remove_lem (inl err) e = (s, inl (err, refl))
  remove_lem (inr u) e =
      let m : Entries = t.access.entries in
      let j : ℕ = index_at page 12 in
      let (at, cells) =
        find_table-cell rank m s.tree uppers t.root u
          (index_at_lt page 39, (index_at_lt page 30, (index_at_lt page 21, tt)))
          (omega (arith, s.top)) e in
      elim (Bool-cases (is_set (m u j) present)) [
        | inr off ↦ rw off (s, inl (UnmapError.not_mapped, refl))
        | inl on ↦
            let t' : PageTables = (remove t page (inr u)).0 in
            let written : t'.access.entries ≡ stored m u j 0 = rw on refl in
            let kept : t'.root ≡ t.root = rw on refl in
            let others : (va : ℕ) → va / 4096 ≢ page / 4096 → translate t' va ≡ translate t va =
              written_others rank t s.tree s.top page u at canonical (cells j) t' 0 written kept in
            let gone : (va : ℕ) → va / 4096 ≡ page / 4096 → translate t' va ≡ none =
              written_none rank t s.tree s.top page u at canonical (cells j) t' 0 written kept
                is_set_zero in
            let tree : IsTree rank t'.access.entries =
              written-IsTree rank t s.tree s.top page u at canonical (cells j) t' 0 written kept in
            let was : (va : ℕ)
                → va / 4096 ≡ page / 4096
                → translate t va
                  ≡ some (record {
                    phys_addr = bit_and (m u j) address_mask + va % 4096;
                    is_writable = is_set (m u j) writable;
                    size = 4096;
                  }) =
              λ va h.
                translate_at t va (canonical_of_page va page h ∙ canonical)
                ∙ translate_from-cell rank m s.tree (table_indices va) t.root 0 va (u, j) true _
                    (table_indices_bounds va) s.top (omega (arith, length-table_indices va))
                    (ap (λ is. cell_of m is t.root) (indices_of_page va page h) ∙ cells j) on refl
                ∙ ap some (resolved_leaf va _ _ _ (address-IsFrame (m u j)) refl) in
            (
              record { tree = tree; top = ap rank kept ∙ s.top },
              inr (
                containing_address (phys (bit_and (m u j) address_mask)),
                rw on refl,
                record {
                  was = λ va h. (
                    is_set (m u j) writable,
                    was va h
                        ∙ ap
                            (λ a. some (record {
                              phys_addr = a + va % 4096;
                              is_writable = is_set (m u j) writable;
                              size = 4096;
                            }))
                            (sym (frame_of (m u j))),
                  );
                  gone = gone;
                  others = others;
                },
              ),
            )
      ]

  removed_lem : Removes (unmap t page)
  unfolding unmap
  removed_lem = elim (Bool-cases (ltb page kernel_space_base)) [
    | inl low ↦ rw low (s, inl (UnmapError.outside_kernel_space, refl))
    | inr high ↦ rw high (remove_lem (find_table t.access.entries uppers t.root) refl)
  ]

  -- On page tables that form a tree with writable links, `unmap` of a canonical page leaves such a
  -- tree. Either it answers the frame that every address of the page translated to, those addresses
  -- translate to nothing any more, and no other address translates differently; or it is refused
  -- and changes nothing. It is refused as outside kernel space exactly if the page is below it, as
  -- not mapped only if the page translates to nothing, and never if a 4 KiB page maps it in kernel
  -- space.
  pub unmap_lem : Answers (unmap t page)
  unmap_lem =
      let (space, outcome) = removed_lem in
      (
        space,
        elim outcome [
          | inl (err, e) ↦ inl (err, e, unmap-Kept rank t s.tree s.top page canonical err e)
          | inr done ↦ inr done
        ],
      )
