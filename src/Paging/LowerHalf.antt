-- ===== src/Paging/LowerHalf.antt =====
-- arch/x86_64/src/paging.rs: `free_lower_half`: what is given back, and what is left.
use aion_so.Base.{
  ℕ, suc, ◌+◌, ◌<◌, ◌≤◌, ◌≡◌, refl, sym, ap, ◌∙◌, Bool, true, false, List, [], ◌∷◌, ◌++◌, none,
  arith, ◌≢◌, inl, inr, ◌⊎◌, Bool-cases, length,
}
use aion_so.Hal.Frame.{PhysFrame}
use aion_so.Paging.Entries.{is_set, huge, table_indices, index_at, is_canonical, kernel_space_base}
use aion_so.Paging.Tree.{Entries, links, points_to, IsTree, IsIndices, visit-absent, visit_alike}
use aion_so.Paging.Indices.{table_indices_bounds}
use aion_so.Paging.Leaf.{translate_at, translate_not}
use aion_so.Paging.Copying.{high_index, low_index}
use aion_so.Paging.Unmapping.{IsSpace}
use aion_so.Base.Distinct.{Among, Among-++, Among-left, Among-right, Distinct, Distinct-++}
use aion_so.Paging.Below.{
  below, Descends, Descends-rank, Descends-unique, Hangs, below-Hangs, below-Distinct, Hangs-below,
}
use aion_so.Paging.Freeing.{hand_back, free_lower_half}
use aion_so.Paging.Handing.{given, given-++}
use aion_so.Paging.Releasing.{Cleared, free_slots_lem}
use aion_so.Paging.{PageTables, translate, translate_from}

-- Walks from below the root do not look at the root.
root_unseen :
    (rank : ℕ → ℕ) (m m' : Entries) (root : ℕ)
    → IsTree rank m
    → rank root ≡ 0
    → ((a i : ℕ) → a ≢ root → m' a i ≡ m a i)
    → (va k : ℕ) (is : List ℕ) (t : ℕ) (w : Bool) → IsIndices is
    → rank t ≡ suc k
    → k < 3
    → suc k + length is ≡ 4
    → translate_from m' va (suc k) is t w ≡ translate_from m va (suc k) is t w
unfolding translate_from
root_unseen rank m m' root tr top same va k [] t w hi r lt d = refl
root_unseen rank m m' root tr top same va k (i ∷ is) t w hi r lt d =
    visit_alike m m' va (suc k) i is t t w (same t i (λ p. omega (arith, ap rank p)))
      (λ on h.
        root_unseen rank m m' root tr top same va (suc k) is (points_to (m t i)) _ hi.1
          (omega (arith, tr.deeper t i (omega arith) hi.0 on)) (omega arith) (omega arith))
      (omega arith)

-- The tables of the lower half, the root last.
abbrev pub lower_tables : PageTables → List ℕ
lower_tables t = below t.access.entries 3 t.root 256 ++ t.root ∷ []

-- The lower half translates to nothing, the upper half as before.
pub record Emptied (t t' : PageTables) : Type 0 where
  pub lower : (va : ℕ) → va < kernel_space_base → translate t' va ≡ none
  pub kernel : (va : ℕ) → kernel_space_base ≤ va → translate t' va ≡ translate t va

module _ (rank : ℕ → ℕ) (t : PageTables) (s : IsSpace rank t) where
  -- The root, and the tables that hang on the lower half of its entries.
  abbrev pub IsLower : ℕ → Type 0
  IsLower a = (a ≡ t.root) ⊎ Hangs rank t.access.entries s.tree t.root 256 a

  -- A list of the tables of the lower half, none of them a table of the kernel's.
  pub record Returned (tables : List ℕ) : Type 0 where
    pub once : Distinct tables
    pub only : (a : ℕ) → Among tables a → IsLower a
    pub all : (a : ℕ) → IsLower a → Among tables a
    pub not_shared :
        (i a : ℕ)
        → 256 ≤ i
        → i < 512
        → links (t.access.entries t.root i) ≡ true
        → Descends rank t.access.entries s.tree (points_to (t.access.entries t.root i)) a
        → ¬ (Among tables a)

  child_rank :
      (i : ℕ)
      → i < 512
      → links (t.access.entries t.root i) ≡ true
      → rank (points_to (t.access.entries t.root i)) ≡ 1
  child_rank i hi on = omega (arith, s.tree.deeper t.root i (omega (arith, s.top)) hi on, s.top)

  Descends-low : (c a : ℕ) → rank c ≤ 3 → Descends rank t.access.entries s.tree c a → rank a ≤ 3
  Descends-low c a h (Descends.here e) = omega (arith, ap rank e)
  Descends-low c a h (Descends.down u i d lt hi on e) =
      omega (arith, s.tree.deeper u i lt hi on, ap rank e)

  Hangs-rank :
      (a : ℕ) → Hangs rank t.access.entries s.tree t.root 256 a → (1 ≤ rank a) × (rank a ≤ 3)
  Hangs-rank a (i, li, on, de) =
      let one = child_rank i (omega arith) on in
      (
        omega (arith, Descends-rank rank t.access.entries s.tree _ a de, one),
        Descends-low (points_to (t.access.entries t.root i)) a (omega (arith, one)) de,
      )

  lower_tables-Among : (a : ℕ) → Among (lower_tables t) a → IsLower a
  unfolding Among
  lower_tables-Among a h = elim (Among-++ (below t.access.entries 3 t.root 256) (t.root ∷ []) a h) [
    | inl p ↦ inr (
        below-Hangs rank t.access.entries s.tree 3 t.root 256 a (omega (arith, s.top)) (omega arith)
          p)
    | inr (inl e) ↦ inl e
    | inr (inr p) ↦ absurd p
  ]

  IsLower-Among : (a : ℕ) → IsLower a → Among (lower_tables t) a
  unfolding Among
  IsLower-Among a (inl e) =
      Among-right (below t.access.entries 3 t.root 256) (t.root ∷ []) a (inl e)
  IsLower-Among a (inr h) =
      let (low, high) = Hangs-rank a h in
      Among-left (below t.access.entries 3 t.root 256) (t.root ∷ []) a (
        Hangs-below rank t.access.entries s.tree 3 t.root 256 a (omega (arith, s.top)) (omega arith)
          (omega (arith, s.top, low)) (omega (arith, s.top, high)) h)

  lower_tables-Distinct : Distinct (lower_tables t)
  unfolding Among Distinct
  lower_tables-Distinct =
      Distinct-++ (below t.access.entries 3 t.root 256) (t.root ∷ [])
        (below-Distinct rank t.access.entries s.tree 3 t.root 256 (omega (arith, s.top))
          (omega arith))
        ((λ a h. absurd h), tt)
        (λ a p q. elim q [
          | inl e ↦ omega (
            arith,
            ap rank e,
            s.top,
            (Hangs-rank a (
                below-Hangs rank t.access.entries s.tree 3 t.root 256 a (omega (arith, s.top))
                  (omega arith) p)).0,
          )
          | inr h ↦ h
        ])

  kernel_apart :
      (i a : ℕ)
      → 256 ≤ i
      → i < 512
      → links (t.access.entries t.root i) ≡ true
      → Descends rank t.access.entries s.tree (points_to (t.access.entries t.root i)) a
      → ¬ (IsLower a)
  kernel_apart i a lo hi on de (inl e) = omega (
    arith,
    Descends-rank rank t.access.entries s.tree _ a de,
    child_rank i hi on,
    ap rank e,
    s.top,
  )
  kernel_apart i a lo hi on de (inr (j, lj, on', de')) =
      let same =
        Descends-unique rank t.access.entries s.tree _ _ a de de'
          (child_rank i hi on ∙ sym (child_rank j (omega arith) on')) in
      let (_, at) =
        s.tree.single t.root i t.root j (omega (arith, s.top)) hi on (omega (arith, s.top))
          (omega arith) on' same in
      omega arith

  returned : Returned (lower_tables t)
  returned = record {
    once = lower_tables-Distinct;
    only = lower_tables-Among;
    all = IsLower-Among;
    not_shared = λ i a lo hi on de h. kernel_apart i a lo hi on de (lower_tables-Among a h);
  }

  emptied :
      (t' : PageTables)
      → t'.root ≡ t.root
      → Cleared t.access.entries t'.access.entries t.root 256
      → Emptied t t'
  unfolding table_indices
  emptied t' root cleared = record {
    lower = λ va h. elim (Bool-cases (is_canonical va)) [
      | inr off ↦ translate_not t' va off
      | inl on ↦
          translate_at t' va on
          ∙ rw root (
              visit-absent t'.access.entries va 0 (index_at va 39) _ t.root true
                (cleared.gone (index_at va 39) (low_index va h on)))
    ];
    kernel = λ va h. elim (Bool-cases (is_canonical va)) [
      | inr off ↦ translate_not t' va off ∙ sym (translate_not t va off)
      | inl on ↦
          let hi : IsIndices (table_indices va) = table_indices_bounds va in
          translate_at t' va on
          ∙ rw root (
              visit_alike t.access.entries t'.access.entries va 0 (index_at va 39)
                (index_at va 30 ∷ index_at va 21 ∷ index_at va 12 ∷ []) t.root t.root true
                (cleared.above (index_at va 39) (high_index va h on))
                (λ linked _.
                  root_unseen rank t.access.entries t'.access.entries t.root s.tree s.top
                    cleared.other va 0 _ (points_to (t.access.entries t.root (index_at va 39))) _
                    hi.1 (child_rank (index_at va 39) hi.0 linked) (omega arith) (omega arith))
                (omega arith))
          ∙ sym (translate_at t va on)
    ];
  }

  -- On page tables that form a tree with writable links, with no large-page entry in the lower half
  -- of the root: `free_lower_half` hands its closure a list of tables one after another. The list
  -- has the root and every table that hangs on the lower half of it, each once and nothing else,
  -- and so no table that the kernel's half leads to. Afterwards the lower half translates to
  -- nothing, and every address of kernel space as before.
  pub free_lower_half_lem :
      {G : Type 0} (give_back : G → PhysFrame → G × Bool) (g : G)
      → ((i : ℕ) → i < 256 → is_set (t.access.entries t.root i) huge ≡ false)
      → let r = free_lower_half give_back t g in
        (r.1 ≡ given give_back (record { owner = g; count = 0 }) (lower_tables t))
        × (Returned (lower_tables t) × Emptied t r.0)
  unfolding free_lower_half given
  free_lower_half_lem give_back g small =
      let (cleared, handed) =
        free_slots_lem give_back rank t.access.entries t.root s.tree s.top 256 (omega arith) small
          (record { owner = g; count = 0 }) in
      (
        ap (λ h. hand_back give_back h t.root) handed
            ∙ sym (given-++ give_back _ (below t.access.entries 3 t.root 256) (t.root ∷ [])),
        (returned, emptied _ refl cleared),
      )
