-- ===== src/Paging/Linking.antt =====
-- arch/x86_64/src/paging.rs: a zeroed table is linked where there was none.
use aion_so.Base.{
  ℕ, suc, ◌+◌, ◌<◌, ◌≤◌, ◌≡◌, refl, sym, ap, ◌∙◌, Bool, true, false, ◌&&◌, List, [], ◌∷◌, none,
  ◌==◌, arith, ◌≢◌, inl, inr, ◌⊎◌, Bool-cases, if◌then◌else◌, length, ==→eq, ==→ne,
}
use aion_so.Paging.Entries.{is_set, present, writable}
use aion_so.Paging.Bits.{Reads}
use aion_so.Paging.Tree.{
  Entries, links, points_to, IsTree, IsIndices, visit-absent, visit-link, visit_alike, stored_other,
  stored_same,
}
use aion_so.Paging.{translate_from, stored, zeroed}
use aion_so.Paging.Growth.{Grown, zeroed_other, zeroed_same, links_of}

no_link_zero : ¬ (links 0 ≡ true)
unfolding is_set
no_link_zero h = ground arith

no_link : (e : ℕ) → links e ≡ true → ¬ (is_set e present ≡ false)
no_link e on off = ground arith

-- A zeroed table `n`, linked from `t` at `i`.
module _ (rank : ℕ → ℕ) (m : Entries) (tr : IsTree rank m) (t i n e : ℕ) (at : rank t < 3)
    (small : i < 512) (absent : is_set (m t i) present ≡ false) (fresh : 4 ≤ rank n)
    (reads : Reads e n true) where
  abbrev pub linked_rank : ℕ → ℕ
  linked_rank a = if a == n then suc (rank t) else rank a

  abbrev pub linked : Entries
  linked = stored (zeroed m n 512) t i e

  linked_here : linked t i ≡ e
  linked_here = stored_same (zeroed m n 512) t i e

  linked_new : (j : ℕ) → j < 512 → linked n j ≡ 0
  linked_new j h =
      stored_other (zeroed m n 512) t i e n j (λ p _. omega (arith, ap rank p))
      ∙ zeroed_same m n 512 j h

  linked_other : (a j : ℕ) → a ≢ n → (a ≡ t → j ≢ i) → linked a j ≡ m a j
  linked_other a j ne other =
      stored_other (zeroed m n 512) t i e a j other ∙ zeroed_other m n 512 a j ne

  rank_old : (a : ℕ) → a ≢ n → linked_rank a ≡ rank a
  rank_old a ne = ground arith

  rank_new : linked_rank n ≡ suc (rank t)
  rank_new = ground arith

  -- An entry that links in the new memory is the new link, or linked before.
  cases :
      (a j : ℕ)
      → linked_rank a < 3
      → j < 512
      → links (linked a j) ≡ true
      → ((a ≡ t) × (j ≡ i)) ⊎ ((a ≢ n) × (linked a j ≡ m a j) × (rank a < 3))
  cases a j h hj on = elim (Bool-cases (a == n)) [
    | inl p ↦
        let here : a ≡ n = ==→eq a n p in
        absurd (
          no_link_zero
            (sym (ap links (linked_new j hj)) ∙ ap (λ x. links (linked x j)) (sym here) ∙ on))
    | inr p ↦ elim (Bool-cases (a == t && j == i)) [
      | inl q ↦ inl (ground arith)
      | inr q ↦
          inr (==→ne a n p, linked_other a j (==→ne a n p) (λ x y. ground arith), ground arith)
    ]
  ]

  points_here : (a j : ℕ) → a ≡ t → j ≡ i → points_to (linked a j) ≡ n
  points_here a j p q = rw (p, q) (ap points_to linked_here ∙ reads.points)

  points_old :
      (a j : ℕ)
      → linked a j ≡ m a j
      → rank a < 3
      → j < 512
      → links (linked a j) ≡ true
      → (points_to (linked a j) ≡ points_to (m a j))
        × (rank (points_to (m a j)) ≡ suc (rank a))
        × (links (m a j) ≡ true)
  points_old a j same h hj on =
      let on' : links (m a j) ≡ true = sym (ap links same) ∙ on in
      (ap points_to same, tr.deeper a j h hj on', on')

  old : t ≢ n
  old p = omega (arith, ap rank p)

  below : (a j : ℕ) → rank (points_to (m a j)) ≡ suc (rank a) → rank a < 3 → points_to (m a j) ≢ n
  below a j g h p = omega (arith, ap rank p)

  linked-IsTree : IsTree linked_rank linked
  linked-IsTree = record {
    deeper = λ a j h hj on. elim (cases a j h hj on) [
      | inl (p, q) ↦
          ap linked_rank (points_here a j p q)
          ∙ rank_new
          ∙ ap suc (sym (rank_old t old))
          ∙ ap (λ x. suc (linked_rank x)) (sym p)
      | inr (p, same, h') ↦
          let (f, g, o) = points_old a j same h' hj on in
          ap linked_rank f
          ∙ rank_old (points_to (m a j)) (below a j g h')
          ∙ g
          ∙ ap suc (sym (rank_old a p))
    ];
    single = λ a j b l h hj on hb hl on' e. elim (cases a j h hj on) [
      | inl (p, q) ↦ elim (cases b l hb hl on') [
        | inl (p', q') ↦ (p ∙ sym p', q ∙ sym q')
        | inr (p', same, h') ↦
            let (f, g, o) = points_old b l same h' hl on' in
            absurd (below b l g h' (sym f ∙ sym e ∙ points_here a j p q))
      ]
      | inr (p, same, h') ↦
          let (f, g, o) = points_old a j same h' hj on in
          elim (cases b l hb hl on') [
            | inl (p', q') ↦ absurd (below a j g h' (sym f ∙ e ∙ points_here b l p' q'))
            | inr (p', same', h'') ↦
                let (f', g', o') = points_old b l same' h'' hl on' in
                tr.single a j b l h' hj o h'' hl o' (sym f ∙ e ∙ f')
          ]
    ];
    granting = λ a j h hj on. elim (cases a j h hj on) [
      | inl (p, q) ↦
          ap (λ x. is_set x writable) (ap (λ x. linked x j) p ∙ ap (linked t) q ∙ linked_here)
          ∙ reads.writes
      | inr (p, same, h') ↦
          let (f, g, o) = points_old a j same h' hj on in
          ap (λ x. is_set x writable) same ∙ tr.granting a j h' hj o
    ];
  }

  new_sees :
      (va k : ℕ) (is : List ℕ) (w : Bool) → IsIndices is → translate_from linked va k is n w ≡ none
  unfolding translate_from is_set
  new_sees va k [] w hi = refl
  new_sees va k (j ∷ is) w hi =
      visit-absent linked va k j is n w (ap (λ x. is_set x present) (linked_new j hi.0))

  new_links : links e ≡ true
  new_links = links_of e n true reads

  linked_sees :
      (va k : ℕ) (is : List ℕ) (a : ℕ) (w : Bool)
      → IsIndices is
      → rank a ≡ k
      → k < 4
      → k + length is ≡ 4
      → translate_from linked va k is a w ≡ translate_from m va k is a w
  unfolding translate_from is_set
  linked_sees va k [] a w hi r lt d = refl
  linked_sees va k (j ∷ is) a w hi r lt d = elim (Bool-cases (a == t && j == i)) [
    | inl q ↦
        let pa : a ≡ t = ground arith in
        let pj : j ≡ i = ground arith in
        rw (pa, pj)
          (visit-link linked va k i is t w (omega (arith, ap rank pa))
              (ap links linked_here ∙ new_links)
            ∙ ap (λ x. translate_from linked va (suc k) is x (w && is_set (linked t i) writable))
                (points_here t i refl refl)
            ∙ new_sees va (suc k) is _ hi.1
            ∙ sym (visit-absent m va k i is t w absent))
    | inr q ↦
        visit_alike m linked va k j is a a w
          (linked_other a j (λ p. omega (arith, ap rank p)) (λ x y. ground arith))
          (λ on h.
            linked_sees va (suc k) is (points_to (m a j)) _ hi.1
              (omega (arith, tr.deeper a j (omega arith) hi.0 on)) (omega arith) (omega arith))
          (omega arith)
  ]

  pub linked-Grown : Grown rank m linked_rank linked
  linked-Grown = record {
    tree = linked-IsTree;
    ranks = λ a h. rank_old a (λ p. omega (arith, ap rank p));
    kept = λ a j h hj on.
        let same : linked a j ≡ m a j =
          linked_other a j (λ p. omega (arith, ap rank p))
            (λ pa pj.
              no_link (m t j) (ap (λ x. links (m x j)) (sym pa) ∙ on)
                (ap (λ x. is_set (m t x) present) pj ∙ absent)) in
        (ap links same ∙ on, ap points_to same);
    sees = linked_sees;
  }
