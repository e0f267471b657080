-- ===== src/Paging/Adopting.antt =====
-- arch/x86_64/src/paging.rs: `adopt`, which goes on with a copy of the firmware's root.
use aion_so.Base.{
  ℕ, zero, suc, ◌+◌, ◌<◌, ◌≤◌, ◌≡◌, refl, sym, ap, ◌∙◌, Bool, true, false, [], ◌∷◌, Option, none,
  some, ◌==◌, arith, if◌then◌else◌, ◌≢◌, inl, inr, Bool-cases, ==→eq, add64,
}
use aion_so.Hal.Frame.{PhysFrame}
use aion_so.Paging.Entries.{
  is_set, present, kernel_space_base, table_indices, index_at, is_canonical,
}
use aion_so.Paging.Tree.{Entries, IsTree, IsIndices, points_to, visit-absent, visit_alike}
use aion_so.Paging.Growth.{zeroed_other}
use aion_so.Paging.Indices.{table_indices_bounds}
use aion_so.Paging.Leaf.{Untouched, translate_at, translate_not}
use aion_so.Paging.Descent.{Promises}
use aion_so.Paging.Mapping.{IsSound}
use aion_so.Paging.Copying.{copied_other, copied_at, high_index}
use aion_so.Paging.SharedTrees.{Planted, agree_sees, new-Planted}
use aion_so.Paging.Sharing.{left_alone}
use aion_so.Paging.Spaces.{PagingError, any_present, copied, kernel_slot, adopted, adopt}
use aion_so.Paging.{
  Access, PageTables, Mapper, FrameAllocator, granted, reaches, new_table, translate,
  translate_from, zeroed,
}

any_present-none :
    (e : Entries) (table first n i : ℕ)
    → any_present e table first n ≡ false
    → first ≤ i
    → i < first + n
    → is_set (e table i) present ≡ false
unfolding any_present
any_present-none e table first zero i h lo hi = absurd (omega arith)
any_present-none e table first (suc n) i h lo hi = elim (Bool-cases (i == first + n)) [
  | inl p ↦ ap (λ x. is_set (e table x) present) (==→eq i (first + n) p) ∙ ground (arith, h)
  | inr p ↦ any_present-none e table first n i (ground (arith, h)) lo (ground (arith, p))
]

-- No entry of the upper half of the root is there.
upper_half_empty :
    (t : PageTables)
    → any_present t.access.entries t.root kernel_slot 256 ≡ false
    → (va : ℕ) → kernel_space_base ≤ va
    → translate t va ≡ none
unfolding table_indices
upper_half_empty t off va h = elim (Bool-cases (is_canonical va)) [
  | inr c ↦ translate_not t va c
  | inl c ↦
      translate_at t va c
      ∙ visit-absent t.access.entries va 0 (index_at va 39) _ t.root true (
          any_present-none t.access.entries t.root 256 256 (index_at va 39) off (high_index va h c)
            (table_indices_bounds va).0)
]

module _ (t : PageTables) (rank : ℕ → ℕ) (tr : IsTree rank t.access.entries) (top : rank t.root ≡ 0)
    (n : ℕ) (fresh : 4 ≤ rank n) (t' : PageTables) (root : t'.root ≡ n)
    (memory : t'.access.entries ≡ copied (zeroed t.access.entries n 512) t.root n 0 512) where
  away : t.root ≢ n
  away p = omega (arith, ap rank p)

  same : (a i : ℕ) → a ≢ n → t'.access.entries a i ≡ t.access.entries a i
  same a i ne =
      rw memory (copied_other _ t.root n 0 512 a i ne ∙ zeroed_other t.access.entries n 512 a i ne)

  entry : (i : ℕ) → i < 512 → t'.access.entries n i ≡ t.access.entries t.root i
  entry i hi = rw memory (
      copied_at _ t.root n 0 512 i away (omega arith) (omega arith)
      ∙ zeroed_other t.access.entries n 512 t.root i away)

  copy_tree : Planted rank t'.access.entries n
  copy_tree =
      new-Planted rank t.access.entries t'.access.entries tr n fresh same t.root top
        (λ i hi. inl (entry i hi))

  copy_walk :
      (va : ℕ)
      → translate_from t'.access.entries va 0 (table_indices va) n true
        ≡ translate_from t.access.entries va 0 (table_indices va) t.root true
  unfolding table_indices
  copy_walk va =
      let hi : IsIndices (table_indices va) = table_indices_bounds va in
      visit_alike t.access.entries t'.access.entries va 0 (index_at va 39)
        (index_at va 30 ∷ index_at va 21 ∷ index_at va 12 ∷ []) t.root n true
        (entry (index_at va 39) hi.0)
        (λ on _.
          agree_sees rank t.access.entries t'.access.entries n tr fresh same va 1 _
            (points_to (t.access.entries t.root (index_at va 39))) _ hi.1
            (omega (arith, tr.deeper t.root (index_at va 39) (omega (arith, top)) hi.0 on, top))
            (omega arith) (omega arith))
        (omega arith)

  copy-Untouched : Untouched t t'
  copy-Untouched va = elim (Bool-cases (is_canonical va)) [
    | inr c ↦ translate_not t' va c ∙ sym (translate_not t va c)
    | inl c ↦
        translate_at t' va c
        ∙ ap (λ x. translate_from t'.access.entries va 0 (table_indices va) x true) root
        ∙ copy_walk va
        ∙ sym (translate_at t va c)
  ]

-- The tables go on under a root of their own.
pub record Adopted (t t' : PageTables) : Type 0 where
  pub moved : t'.root ≢ t.root
  pub untouched :
      (table i : ℕ) → table ≢ t'.root → t'.access.entries table i ≡ t.access.entries table i
  pub empty : (va : ℕ) → kernel_space_base ≤ va → translate t va ≡ none

module _ {F : Type 0} (source : FrameAllocator F) (Free : F → ℕ → Type 0)
    (laws : Promises source Free) where
  abbrev pub GoesOn : Mapper F → Mapper F × Option PagingError → Type 0
  GoesOn m r =
      (IsSound source Free laws r.0 × Untouched m.tables r.0.tables)
      × ((r.1 ≡ none → Adopted m.tables r.0.tables)
          × ((r.1 ≡ some PagingError.kernel_space_in_use
                → any_present m.tables.access.entries m.tables.root kernel_slot 256 ≡ true)
              × (any_present m.tables.access.entries m.tables.root kernel_slot 256 ≡ true
                  → r.1 ≡ some PagingError.kernel_space_in_use)))

  adopted_lem :
      (m : Mapper F)
      → IsSound source Free laws m
      → any_present m.tables.access.entries m.tables.root kernel_slot 256 ≡ false
      → (a : Option PhysFrame × F) → source.allocate_frame m.frames ≡ a
      → GoesOn m (adopted m.tables.root (granted m.tables a))
  unfolding granted adopted
  adopted_lem m s off (none, f) e =
      let (good, left) = laws.stops m.frames f s.apart.0 e in
      (
        (left_alone source Free laws m s f good left, λ va. refl),
        ((λ p. ground arith), ((λ p. ground (arith, p)), λ p. ground (arith, off, p))),
      )
  adopted_lem m s off (some fr, f) e =
      let n : ℕ = fr.start.as_u64 in
      let (good, (free, (frame, left))) = laws.gives m.frames f fr s.apart.0 e in
      elim (Bool-cases (reaches n (translate m.tables (add64 m.tables.access.window n)))) [
        | inr r ↦ rw r (
          (left_alone source Free laws m s f good (λ a h. (left a h).0), λ va. refl),
          ((λ p. ground arith), ((λ p. ground (arith, p)), λ p. ground (arith, off, p))),
        )
        | inl r ↦
            let fresh : 4 ≤ s.rank n = s.apart.1 n free in
            let t' : PageTables = record {
              root = n;
              access = record m.tables.access {
                entries = copied (zeroed m.tables.access.entries n 512) m.tables.root n 0 512;
              };
            } in
            let own : Planted s.rank t'.access.entries n =
              copy_tree m.tables s.rank s.tree s.top n fresh t' refl refl in
            rw r (
              (
                record {
                  rank = own.rank';
                  tree = own.tree;
                  top = own.top;
                  apart =
                      (good, λ a h. let (was, ne) = left a h in own.apart a (s.apart.1 a was) ne);
                },
                copy-Untouched m.tables s.rank s.tree s.top n fresh t' refl refl,
              ),
              (
                (λ p. record {
                  moved = λ q. away m.tables s.rank s.tree s.top n fresh t' refl refl (sym q);
                  untouched = same m.tables s.rank s.tree s.top n fresh t' refl refl;
                  empty = upper_half_empty m.tables off;
                }),
                ((λ p. ground (arith, p)), λ p. ground (arith, off, p)),
              ),
            )
      ]

  checked_lem :
      (m : Mapper F) (b : Bool)
      → any_present m.tables.access.entries m.tables.root kernel_slot 256 ≡ b
      → IsSound source Free laws m
      → GoesOn m (
          if b
          then (m, some PagingError.kernel_space_in_use)
          else adopted m.tables.root (granted m.tables (source.allocate_frame m.frames)))
  checked_lem m true on s = ((s, λ va. refl), ((λ p. ground arith), ((λ p. on), λ p. refl)))
  checked_lem m false off s = adopted_lem m s off (source.allocate_frame m.frames) refl

  -- On page tables that form a tree with writable links, and with no table among the free frames,
  -- `adopt` leaves such page tables with the same translations, whatever it answers. When it
  -- succeeds, the root is a new table, no other table has been written to, and nothing is mapped in
  -- kernel space. It refuses kernel space as in use exactly if an entry of the upper half of the
  -- root is present.
  pub adopt_lem :
      (access : Access) (old_root : ℕ) (frames : F)
      → let m : Mapper F = record {
        tables = record { root = old_root; access = access };
        frames = frames;
      } in
        IsSound source Free laws m → GoesOn m (adopt source access old_root frames)
  unfolding adopt new_table
  adopt_lem access old_root frames s = checked_lem _ _ refl s
