-- ===== src/Paging/Sharing.antt =====
-- arch/x86_64/src/paging.rs: a process's space has the kernel's half and an empty lower half.
use aion_so.Base.{
  ℕ, ◌<◌, ◌≤◌, ◌≡◌, refl, sym, ap, ◌∙◌, true, [], ◌∷◌, Option, none, some, arith, ltb, ltb→lt, ◌≢◌,
  inl, inr, ◌⊎◌, Bool-cases, add64,
}
use aion_so.Hal.Frame.{PhysFrame}
use aion_so.Hal.Paging.{MapError}
use aion_so.Paging.Entries.{
  is_set, present, kernel_space_base, table_indices, index_at, is_canonical,
}
use aion_so.Paging.Bits.{is_set_zero}
use aion_so.Paging.Tree.{IsTree, IsIndices, points_to, visit-absent, visit_alike}
use aion_so.Paging.Growth.{zeroed_other, zeroed_same}
use aion_so.Paging.Indices.{table_indices_bounds, length-table_indices}
use aion_so.Paging.Leaf.{Untouched, translate_at, translate_not, translate-Alike}
use aion_so.Paging.Descent.{Promises}
use aion_so.Paging.Mapping.{IsSound}
use aion_so.Paging.Spaces.{copied, shared, new_process_space, kernel_slot}
use aion_so.Paging.{
  PageTables, Mapper, FrameAllocator, granted, reaches, new_table, translate, translate_from,
  zeroed,
}
use aion_so.Paging.Copying.{copied_other, copied_below, copied_at, high_index, low_index}
use aion_so.Paging.SharedTrees.{Planted, agree_sees, agree-IsTree, new-Planted}

-- The tables of the kernel after, and those of the process.
pub record Shares (t t' p : PageTables) : Type 0 where
  pub kept : Untouched t t'
  pub kernel : (va : ℕ) → kernel_space_base ≤ va → translate p va ≡ translate t va
  pub empty : (va : ℕ) → va < kernel_space_base → translate p va ≡ none

module _ (t : PageTables) (rank : ℕ → ℕ) (tr : IsTree rank t.access.entries) (top : rank t.root ≡ 0)
    (n : ℕ) (fresh : 4 ≤ rank n) (t' : PageTables) (root : t'.root ≡ t.root)
    (memory : t'.access.entries
      ≡ copied (zeroed t.access.entries n 512) t.root n kernel_slot 256) where
  old_root : t.root ≢ n
  old_root p = omega (arith, ap rank p)

  same : (a i : ℕ) → a ≢ n → t'.access.entries a i ≡ t.access.entries a i
  same a i ne =
      rw memory (
        copied_other _ t.root n kernel_slot 256 a i ne ∙ zeroed_other t.access.entries n 512 a i ne)

  high_entry : (i : ℕ) → 256 ≤ i → i < 512 → t'.access.entries n i ≡ t.access.entries t.root i
  high_entry i lo hi = rw memory (
      copied_at _ t.root n kernel_slot 256 i old_root lo (omega arith)
      ∙ zeroed_other t.access.entries n 512 t.root i old_root)

  low_entry : (i : ℕ) → i < 256 → t'.access.entries n i ≡ 0
  low_entry i hi = rw memory (
      copied_below _ t.root n kernel_slot 256 i hi
      ∙ zeroed_same t.access.entries n 512 i (omega arith))

  kernel_walk :
      (va : ℕ)
      → kernel_space_base ≤ va
      → is_canonical va ≡ true
      → translate_from t'.access.entries va 0 (table_indices va) n true
        ≡ translate_from t.access.entries va 0 (table_indices va) t.root true
  unfolding table_indices is_canonical
  kernel_walk va h c =
      let hi : IsIndices (table_indices va) = table_indices_bounds va in
      let high : 256 ≤ index_at va 39 = high_index va h c in
      visit_alike t.access.entries t'.access.entries va 0 (index_at va 39)
        (index_at va 30 ∷ index_at va 21 ∷ index_at va 12 ∷ []) t.root n true
        (high_entry (index_at va 39) high hi.0)
        (λ on _.
          agree_sees rank t.access.entries t'.access.entries n tr fresh same va 1 _
            (points_to (t.access.entries t.root (index_at va 39))) _ hi.1
            (omega (arith, tr.deeper t.root (index_at va 39) (omega (arith, top)) hi.0 on, top))
            (omega arith) (omega arith))
        (omega arith)

  empty_walk :
      (va : ℕ)
      → va < kernel_space_base
      → is_canonical va ≡ true
      → translate_from t'.access.entries va 0 (table_indices va) n true ≡ none
  unfolding table_indices
  empty_walk va h c =
      visit-absent t'.access.entries va 0 (index_at va 39) _ n true
        (ap (λ e. is_set e present) (low_entry (index_at va 39) (low_index va h c)) ∙ is_set_zero)

  shares : (p : PageTables) → p.root ≡ n → p.access.entries ≡ t'.access.entries → Shares t t' p
  shares p pr pm = record {
    kept = λ va. translate-Alike t t' va root (
        agree_sees rank t.access.entries t'.access.entries n tr fresh same va 0 (table_indices va)
          t.root true (table_indices_bounds va) top (omega arith)
          (omega (arith, length-table_indices va)));
    kernel = λ va h. elim (Bool-cases (is_canonical va)) [
      | inr off ↦ translate_not p va off ∙ sym (translate_not t va off)
      | inl on ↦
          translate_at p va on ∙ rw (pm, pr) (kernel_walk va h on) ∙ sym (translate_at t va on)
    ];
    empty = λ va h. elim (Bool-cases (is_canonical va)) [
      | inr off ↦ translate_not p va off
      | inl on ↦ translate_at p va on ∙ rw (pm, pr) (empty_walk va h on)
    ];
  }

  kernel-IsTree : IsTree rank t'.access.entries
  kernel-IsTree = agree-IsTree rank t.access.entries t'.access.entries tr n fresh same

  process_tree : Planted rank t'.access.entries n
  process_tree =
      new-Planted rank t.access.entries t'.access.entries tr n fresh same t.root top (λ i hi.
        elim (Bool-cases (ltb i 256)) [
          | inl l ↦ inr (low_entry i (ltb→lt i 256 l))
          | inr g ↦ inl (high_entry i (ground (arith, g)) hi)
        ])

module _ {F : Type 0} (source : FrameAllocator F) (Free : F → ℕ → Type 0)
    (laws : Promises source Free) where
  abbrev pub Sound : Mapper F → Type 0
  Sound = IsSound source Free laws

  abbrev pub Answers : Mapper F → Mapper F × (MapError ⊎ PageTables) → Type 0
  Answers m r =
      ((err : MapError) × (r.1 ≡ inl err)
        × (IsSound source Free laws r.0 × Untouched m.tables r.0.tables))
      ⊎ ((p : PageTables) × (r.1 ≡ inr p)
          × (IsSound source Free laws r.0
              × (IsSound source Free laws (record r.0 { tables = p })
                  × Shares m.tables r.0.tables p)))

  -- The tables are as they were, and the frames that are left are among those that were free.
  pub left_alone :
      (m : Mapper F) (s : Sound m) (f : F)
      → laws.Good f
      → ((a : ℕ) → Free f a → Free m.frames a)
      → Sound (record m { frames = f })
  left_alone m s f good left = record {
    rank = s.rank;
    tree = s.tree;
    top = s.top;
    apart = (good, λ a h. s.apart.1 a (left a h));
  }

  shared_lem :
      (m : Mapper F)
      → Sound m
      → (a : Option PhysFrame × F) → source.allocate_frame m.frames ≡ a
      → Answers m (shared (granted m.tables a))
  unfolding granted shared
  shared_lem m s (none, f) e =
      let (good, left) = laws.stops m.frames f s.apart.0 e in
      inl (MapError.out_of_frames, refl, (left_alone m s f good left, λ va. refl))
  shared_lem m s (some fr, f) e =
      let n : ℕ = fr.start.as_u64 in
      let (good, (free, (frame, left))) = laws.gives m.frames f fr s.apart.0 e in
      elim (Bool-cases (reaches n (translate m.tables (add64 m.tables.access.window n)))) [
        | inr off ↦ rw off (
            inl (
              MapError.table_frame_not_writable,
              refl,
              (left_alone m s f good (λ a h. (left a h).0), λ va. refl),
            ))
        | inl on ↦
            let fresh : 4 ≤ s.rank n = s.apart.1 n free in
            let t' : PageTables = record m.tables {
              access = record m.tables.access {
                entries =
                    copied (zeroed m.tables.access.entries n 512) m.tables.root n kernel_slot 256;
              };
            } in
            let own : Planted s.rank t'.access.entries n =
              process_tree m.tables s.rank s.tree s.top n fresh t' refl refl in
            rw on (
              inr (
                _,
                refl,
                (
                  record {
                    rank = s.rank;
                    tree = kernel-IsTree m.tables s.rank s.tree s.top n fresh t' refl refl;
                    top = s.top;
                    apart = (good, λ a h. s.apart.1 a (left a h).0);
                  },
                  (
                    record {
                      rank = own.rank';
                      tree = own.tree;
                      top = own.top;
                      apart = (
                        good,
                        λ a h. let (was, ne) = left a h in own.apart a (s.apart.1 a was) ne,
                      );
                    },
                    shares m.tables s.rank s.tree s.top n fresh _ refl refl _ refl refl,
                  ),
                ),
              ))
      ]

  -- On page tables that form a tree with writable links, and with no table among the free frames, a
  -- new process space either fails, and every translation of the kernel stays; or it is made: the
  -- kernel's translations stay, the process sees in kernel space exactly what the kernel sees
  -- there, and nothing below it. The kernel's page tables are such a tree in every case, and so are
  -- those of the process.
  pub new_process_space_lem :
      (m : Mapper F) → IsSound source Free laws m → Answers m (new_process_space source m)
  unfolding new_process_space new_table
  new_process_space_lem m s = shared_lem m s (source.allocate_frame m.frames) refl
