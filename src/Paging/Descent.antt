-- ===== src/Paging/Descent.antt =====
-- arch/x86_64/src/paging.rs: the walk of `map` down to the last table, whatever the frame allocator
-- answers on the way.
use Prim.Native.Nat.{bit_or}
use aion_so.Base.{
  ℕ, suc, ◌+◌, ◌<◌, ◌≤◌, ◌≡◌, refl, sym, ap, ◌∙◌, true, false, not, ◌&&◌, List, [], ◌∷◌, Option,
  none, some, arith, ◌≢◌, inl, inr, Bool-cases, Option-cases, length, ==_of_ne, add64, ◌++◌,
}
use aion_so.Hal.Frame.{PhysFrame}
use aion_so.Hal.Paging.{PageFlags, MapError}
use aion_so.Paging.Entries.{is_set, present, user, huge}
use aion_so.Paging.Bits.{Reads, IsFrame, link-Reads}
use aion_so.Paging.Tree.{
  Entries, links, points_to, IsTree, IsIndices, cell_of, cell_of_below, stored_same,
}
use aion_so.Paging.Growth.{
  Grown, Grown-refl, Grown-trans, Grown-Alike, upgraded-Alike, stored-Alike, links_of,
}
use aion_so.Paging.Linking.{linked-Grown, linked_rank}
use aion_so.Paging.{
  Walk, FrameAllocator, granted, link, follow, step, new_table, descend, reachable_bits, reaches,
  stored, write, zeroed, translate,
}

-- What an allocator of frames promises, as long as its own state is `Good`: a frame that it gives
-- was free, is a frame, and is free no longer.
pub record Promises {F : Type 0} (source : FrameAllocator F) (Free : F → ℕ → Type 0) : Type 1 where
  pub Good : F → Type 0
  pub gives :
      (f f' : F) (fr : PhysFrame)
      → Good f
      → source.allocate_frame f ≡ (some fr, f')
      → Good f'
        × (Free f fr.start.as_u64
            × (IsFrame fr.start.as_u64 × ((a : ℕ) → Free f' a → Free f a × (a ≢ fr.start.as_u64))))
  pub stops :
      (f f' : F)
      → Good f
      → source.allocate_frame f ≡ (none, f')
      → Good f' × ((a : ℕ) → Free f' a → Free f a)

abbrev pub entries_of : {F : Type 0} → Walk F → Entries
entries_of w = w.mapper.tables.access.entries

module _ {F : Type 0} (source : FrameAllocator F) (Free : F → ℕ → Type 0)
    (laws : Promises source Free) where
  -- No free frame is a table.
  abbrev pub Apart : (ℕ → ℕ) → F → Type 0
  Apart rank f = laws.Good f × ((a : ℕ) → Free f a → 4 ≤ rank a)

  pub record Advanced (rank : ℕ → ℕ) (w : Walk F) (r : Walk F × Option MapError) : Type 0 where
    pub rank' : ℕ → ℕ
    pub grown : Grown rank (entries_of w) rank' (entries_of r.0)
    pub apart : Apart rank' r.0.mapper.frames
    pub roots : r.0.mapper.tables.root ≡ w.mapper.tables.root

  abbrev Arrives : ℕ → Walk F → Walk F × Option MapError → Type 0
  Arrives i w r =
      r.1 ≡ none
      → (links (entries_of r.0 w.table i) ≡ true)
        × (r.0.table ≡ points_to (entries_of r.0 w.table i))

  module _ (rank : ℕ → ℕ) (flags : PageFlags) (i : ℕ) (w : Walk F) (tr : IsTree rank (entries_of w))
      (apart : Apart rank w.mapper.frames) (at : rank w.table < 3) (small : i < 512) where
    -- Tables that are not written to, with the frames that are left.
    abbrev still_walk : F → Walk F
    still_walk f = record w { mapper = record w.mapper { frames = f } }

    still :
        (f : F)
        → Apart rank f
        → {e : Option MapError} {t : ℕ} → Advanced rank w (record (still_walk f) { table = t }, e)
    still f ap' = record {
      rank' = rank;
      grown = Grown-refl rank (entries_of w) tr;
      apart = ap';
      roots = refl;
    }

    follow_lem :
        is_set (entries_of w w.table i) present ≡ true
        → Advanced rank w (follow flags i w) × Arrives i w (follow flags i w)
    unfolding follow write
    follow_lem on = elim (Bool-cases (is_set (entries_of w w.table i) huge)) [
      | inl h ↦ rw h (still w.mapper.frames apart, λ p. ground arith)
      | inr h ↦ elim (Bool-cases (flags.user && not (is_set (entries_of w w.table i) user))) [
        | inl u ↦
            let m' : Entries =
              stored (entries_of w) w.table i (bit_or (entries_of w w.table i) user) in
            let g : Grown rank (entries_of w) rank m' =
              Grown-Alike rank (entries_of w) m' tr (
                stored-Alike (entries_of w) w.table i _
                  (upgraded-Alike (entries_of w w.table i))) in
            let (linked, points) = g.kept w.table i at small (ground (arith, on, h)) in
            rw (h, u)
              (
                record { rank' = rank; grown = g; apart = apart; roots = refl },
                λ p. (linked, sym points),
              )
        | inr u ↦ rw (h, u) (still w.mapper.frames apart, λ p. (ground (arith, on, h), refl))
      ]
    ]

    link_lem :
        (p : Option PhysFrame × F)
        → source.allocate_frame w.mapper.frames ≡ p
        → is_set (entries_of w w.table i) present ≡ false
        → let r = link flags i w (granted w.mapper.tables p) in Advanced rank w r × Arrives i w r
    unfolding link granted write
    link_lem (none, f) e off =
        let (good, left) = laws.stops w.mapper.frames f apart.0 e in
        (still f (good, λ a h. apart.1 a (left a h)), λ p. ground arith)
    link_lem (some fr, f) e off =
        let (good, (free, (frame, left))) = laws.gives w.mapper.frames f fr apart.0 e in
        let n : ℕ = fr.start.as_u64 in
        let fresh : 4 ≤ rank n = apart.1 n free in
        let reads : Reads (bit_or n (reachable_bits flags)) n true = link-Reads n flags frame in
        let m' : Entries =
          stored (zeroed (entries_of w) n 512) w.table i (bit_or n (reachable_bits flags)) in
        let here : m' w.table i ≡ bit_or n (reachable_bits flags) =
          stored_same (zeroed (entries_of w) n 512) w.table i _ in
        elim (Bool-cases
          (reaches n (translate w.mapper.tables (add64 w.mapper.tables.access.window n)))) [
            | inl r ↦ rw r (
              record {
                rank' = linked_rank rank (entries_of w) tr w.table i n _ at small off fresh reads;
                grown = linked-Grown rank (entries_of w) tr w.table i n _ at small off fresh reads;
                apart =
                    (good, λ a h. let (was, ne) = left a h in rw (==_of_ne _ _ ne) (apart.1 a was));
                roots = refl;
              },
              λ p.
                  (ap links here ∙ links_of _ n true reads, sym (ap points_to here ∙ reads.points)),
            )
            | inr r ↦ rw r (still f (good, λ a h. apart.1 a (left a h).0), λ p. ground arith)
          ]

    step_lem : Advanced rank w (step source flags i w) × Arrives i w (step source flags i w)
    unfolding step new_table
    step_lem = elim (Bool-cases (is_set (entries_of w w.table i) present)) [
      | inl on ↦ rw on (follow_lem on)
      | inr off ↦ rw off (link_lem (source.allocate_frame w.mapper.frames) refl off)
    ]

  pub record Descended (rank : ℕ → ℕ) (is : List ℕ) (w : Walk F) (r : Walk F × Option MapError)
      : Type 0 where
    pub rank' : ℕ → ℕ
    pub grown : Grown rank (entries_of w) rank' (entries_of r.0)
    pub apart : Apart rank' r.0.mapper.frames
    pub roots : r.0.mapper.tables.root ≡ w.mapper.tables.root
    pub arrived :
        r.1 ≡ none
        → (rank' r.0.table ≡ 3)
          × ((j : ℕ) → cell_of (entries_of r.0) (is ++ j ∷ []) w.table ≡ some (r.0.table, j))

  pub descend_lem :
      (flags : PageFlags) (is : List ℕ) (rank : ℕ → ℕ) (w : Walk F)
      → IsTree rank (entries_of w)
      → Apart rank w.mapper.frames
      → IsIndices is
      → rank w.table + length is ≡ 3
      → Descended rank is w (descend source flags is w)
  unfolding descend cell_of
  descend_lem flags [] rank w tr apart hi d = record {
    rank' = rank;
    grown = Grown-refl rank (entries_of w) tr;
    apart = apart;
    roots = refl;
    arrived = λ p. (omega arith, λ j. refl);
  }
  descend_lem flags (i ∷ is) rank w tr apart hi d =
      let (a, arrives) = step_lem rank flags i w tr apart (omega arith) hi.0 in
      let w' : Walk F = (step source flags i w).0 in
      elim (Option-cases (step source flags i w).1) [
        | inr (err, e) ↦
            rw (e, descend)
              (record {
                rank' = a.rank';
                grown = a.grown;
                apart = a.apart;
                roots = a.roots;
                arrived = λ p. ground arith;
              })
        | inl e ↦
            let (on, points) = arrives e in
            let down : a.rank' w'.table ≡ suc (rank w.table) =
              ap a.rank' points
              ∙ a.grown.tree.deeper w.table i (omega (arith, a.grown.ranks w.table (omega arith)))
                  hi.0 on
              ∙ ap suc (a.grown.ranks w.table (omega arith)) in
            let rest : Descended a.rank' is w' (descend source flags is w') =
              descend_lem flags is a.rank' w' a.grown.tree a.apart hi.1 (omega (arith, down)) in
            rw (e, descend)
              (record {
                rank' = rest.rank';
                grown = Grown-trans _ _ _ _ _ _ a.grown rest.grown;
                apart = rest.apart;
                roots = rest.roots ∙ a.roots;
                arrived = λ p.
                    let (at3, cells) = rest.arrived p in
                    let (on', points') =
                      rest.grown.kept w.table i (omega (arith, a.grown.ranks w.table (omega arith)))
                        hi.0 on in
                    (
                      at3,
                      λ j.
                          cell_of_below (entries_of (descend source flags is w').0) i is j w.table
                            on'
                          ∙ ap (cell_of (entries_of (descend source flags is w').0) (is ++ j ∷ []))
                              (points' ∙ sym points)
                          ∙ cells j,
                    );
              })
      ]
