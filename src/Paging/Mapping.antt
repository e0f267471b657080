-- ===== src/Paging/Mapping.antt =====
-- arch/x86_64/src/paging.rs: `map`, on every branch.
use mathlib.Core.Bool.{xor}
use aion_so.Base.{
  ℕ, ◌/◌, ◌%◌, ◌+◌, ◌≡◌, refl, sym, ap, ◌∙◌, Bool, true, false, List, [], ◌∷◌, Option, none, some,
  ltb, ◌&&◌, arith, ◌≢◌, inl, inr, Bool-cases, if◌then◌else◌,
}
use aion_so.Hal.Frame.{PhysFrame}
use aion_so.Hal.Paging.{PageFlags, MapError}
use aion_so.Paging.Entries.{
  is_set, present, writable, kernel_space_base, table_indices, index_at, is_canonical,
}
use aion_so.Paging.Bits.{IsFrame, leaf-Reads}
use aion_so.Paging.Tree.{IsTree, cell_of}
use aion_so.Paging.Indices.{index_at_lt, table_indices_bounds, length-table_indices}
use aion_so.Paging.Stopping.{Stops, descend-Stops}
use aion_so.Paging.Walks.{translate_from-cell}
use aion_so.Paging.Descent.{Promises, Descended, descend_lem, Apart, entries_of}
use aion_so.Paging.{
  PageTables, Walk, Mapper, FrameAllocator, Access, flush_all, map, start_walk, place, descend,
  translate, stored, write, leaf_of, resolved,
}
use aion_so.Paging.Leaf.{
  Untouched, translate-Alike, translate_at, written_others, written_empty, written-IsTree,
  written_there,
}
use aion_so.Paging.Outcomes.{Mapped, Refused}

module _ {F : Type 0} (source : FrameAllocator F) (Free : F → ℕ → Type 0)
    (laws : Promises source Free) where
  -- The tables are a tree with writable links, and no frame of the allocator is one of them.
  pub record IsSound (m : Mapper F) : Type 0 where
    pub rank : ℕ → ℕ
    pub tree : IsTree rank m.tables.access.entries
    pub top : rank m.tables.root ≡ 0
    pub apart : Apart source Free laws rank m.frames

  abbrev pub Answers : Mapper F → ℕ → PhysFrame → PageFlags → Mapper F × Option MapError → Type 0
  Answers m page frame flags r =
      IsSound r.0
      × ((r.1 ≡ none → Mapped m.tables r.0.tables page frame flags)
          × (r.1 ≢ none → Refused m.tables r.0.tables page flags r.1))

  abbrev uppers : ℕ → List ℕ
  uppers page = index_at page 39 ∷ index_at page 30 ∷ index_at page 21 ∷ []

  -- A walk leaves the mapper sound, and every translation as it was.
  module _ (m : Mapper F) (s : IsSound m) (is : List ℕ) (r : Walk F × Option MapError)
      (d : Descended source Free laws s.rank is (start_walk m) r) where
    root_rank : d.rank' r.0.mapper.tables.root ≡ 0
    root_rank = ap d.rank' d.roots ∙ d.grown.ranks m.tables.root (omega (arith, s.top)) ∙ s.top

    walked-IsSound : IsSound r.0.mapper
    walked-IsSound = record {
      rank = d.rank';
      tree = d.grown.tree;
      top = root_rank;
      apart = d.apart;
    }

    walked-Untouched : Untouched m.tables r.0.mapper.tables
    walked-Untouched va = translate-Alike m.tables r.0.mapper.tables va d.roots (
        d.grown.sees va 0 (table_indices va) m.tables.root true (table_indices_bounds va) s.top
          (omega arith) (omega (arith, length-table_indices va)))

  flushed_entries : (a : Access) (b : Bool) → (if b then flush_all a else a).entries ≡ a.entries
  flushed_entries a true = refl
  flushed_entries a false = refl

  place_lem :
      (m : Mapper F) (page : ℕ) (frame : PhysFrame) (flags : PageFlags) (s : IsSound m)
      → is_canonical page ≡ true
      → IsFrame frame.start.as_u64
      → xor flags.user (ltb page kernel_space_base) ≡ false
      → (r : Walk F × Option MapError) → Stops r.1
      → Descended source Free laws s.rank (uppers page) (start_walk m) r
      → Answers m page frame flags (place page frame flags r)
  unfolding place write table_indices
  place_lem m page frame flags s canonical f ok (w, some err) stops d = (
    walked-IsSound m s (uppers page) (w, some err) d,
    (
      (λ p. ground arith),
      λ p. record {
        same = walked-Untouched m s (uppers page) (w, some err) d;
        outside = λ q. absurd (ground (arith, stops MapError.outside_kernel_space q));
        inside = λ q. ok;
        taken = λ q. absurd (ground (arith, stops MapError.already_mapped q));
      },
    ),
  )
  place_lem m page frame flags s canonical f ok (w, none) stops d =
      let sound : IsSound w.mapper = walked-IsSound m s (uppers page) (w, none) d in
      let same : Untouched m.tables w.mapper.tables =
        walked-Untouched m s (uppers page) (w, none) d in
      let top : d.rank' w.mapper.tables.root ≡ 0 = root_rank m s (uppers page) (w, none) d in
      let (at, cells) = d.arrived refl in
      let j : ℕ = index_at page 12 in
      let cell : cell_of (entries_of w) (table_indices page) w.mapper.tables.root
          ≡ some (w.table, j) =
        ap (cell_of (entries_of w) (table_indices page)) d.roots ∙ cells j in
      elim (Bool-cases (is_set (entries_of w w.table j) present)) [
        | inl on ↦
            let seen : translate w.mapper.tables page
                ≡ some (
                    resolved page 3 (entries_of w w.table j)
                      (true && is_set (entries_of w w.table j) writable)) =
              translate_at w.mapper.tables page canonical
              ∙ translate_from-cell d.rank' (entries_of w) d.grown.tree (table_indices page)
                  w.mapper.tables.root 0 page (w.table, j) true _ (table_indices_bounds page) top
                  (omega (arith, length-table_indices page)) cell on refl in
            rw on (
              sound,
              (
                (λ p. ground arith),
                λ p. record {
                  same = same;
                  outside = λ q. absurd (ground (arith, q));
                  inside = λ q. ok;
                  taken = λ q free. ground (arith, sym seen ∙ same page ∙ free);
                },
              ),
            )
        | inr off ↦
            let t' : PageTables = (place page frame flags (w, none)).0.tables in
            let written : t'.access.entries
                ≡ stored (entries_of w) w.table j (leaf_of frame flags) =
              rw off (flushed_entries _ w.upgraded) in
            let kept : t'.root ≡ w.mapper.tables.root = rw off refl in
            let others : (va : ℕ)
                → va / 4096 ≢ page / 4096
                → translate t' va ≡ translate w.mapper.tables va =
              written_others d.rank' w.mapper.tables d.grown.tree top page w.table at canonical cell
                t' _ written kept in
            let there : (va : ℕ)
                → va / 4096 ≡ page / 4096
                → translate t' va
                  ≡ some (record {
                    phys_addr = frame.start.as_u64 + va % 4096;
                    is_writable = flags.writable;
                    size = 4096;
                  }) =
              written_there d.rank' w.mapper.tables d.grown.tree top page w.table at canonical cell
                t' _ written kept frame.start.as_u64 flags.writable f (leaf-Reads frame flags f) in
            let empty : (va : ℕ) → va / 4096 ≡ page / 4096 → translate w.mapper.tables va ≡ none =
              written_empty d.rank' w.mapper.tables d.grown.tree top page w.table at canonical cell
                t' _ written kept off in
            let tree : IsTree d.rank' t'.access.entries =
              written-IsTree d.rank' w.mapper.tables d.grown.tree top page w.table at canonical cell
                t' _ written kept in
            (
              record {
                rank = d.rank';
                tree = tree;
                top = ap d.rank' kept ∙ top;
                apart = rw off d.apart;
              },
              (
                (λ p. record {
                  allowed = ok;
                  was_free = λ va e. sym (same va) ∙ empty va e;
                  there = there;
                  others = λ va ne. others va ne ∙ same va;
                }),
                λ p. absurd (p (rw off refl)),
              ),
            )
      ]

  -- On page tables that form a tree with writable links and with no table among the free frames,
  -- and for a frame that is aligned and below 2^52: `map` of a canonical page leaves such page
  -- tables, whatever it answers. When it succeeds, the page translated to nothing before, every
  -- address in it now translates to the same offset in the frame, writable exactly if the flags say
  -- so, and no other address translates differently. When it is refused, out of frames halfway
  -- included, every address translates as before. It is refused as outside kernel space exactly if
  -- the user flag disagrees with the half that the page is in, and as already mapped only if the
  -- page translates to something.
  pub map_lem :
      (m : Mapper F) (page : ℕ) (frame : PhysFrame) (flags : PageFlags)
      → IsSound m
      → is_canonical page ≡ true
      → IsFrame frame.start.as_u64
      → let r = map source m page frame flags in
        IsSound r.0
        × ((r.1 ≡ none → Mapped m.tables r.0.tables page frame flags)
            × (r.1 ≢ none → Refused m.tables r.0.tables page flags r.1))
  unfolding map place write
  map_lem m page frame flags s canonical f =
      elim (Bool-cases (xor flags.user (ltb page kernel_space_base))) [
        | inl x ↦ rw x (
          s,
          (
            (λ p. ground arith),
            λ p. record {
              same = λ va. refl;
              outside = λ q. x;
              inside = λ q. absurd (q refl);
              taken = λ q. absurd (ground (arith, q));
            },
          ),
        )
        | inr x ↦ rw x (
            place_lem m page frame flags s canonical f x
              (descend source flags (uppers page) (start_walk m))
              (descend-Stops source flags (uppers page) (start_walk m))
              (descend_lem source Free laws flags (uppers page) s.rank (start_walk m) s.tree s.apart
                (index_at_lt page 39, (index_at_lt page 30, (index_at_lt page 21, tt)))
                (omega (arith, s.top))))
      ]
