-- ===== src/Paging/Below.antt =====
-- arch/x86_64/src/paging.rs: the tables below a table, and that none of them is met twice.
use aion_so.Base.{
  ℕ, zero, suc, ◌+◌, ◌<◌, ◌≤◌, ◌≡◌, refl, sym, ap, ◌∙◌, true, false, List, [], ◌∷◌, ◌++◌, arith,
  ◌≢◌, inl, inr, ◌⊎◌, ◌==◌, ==→eq, Bool-cases, if◌then◌else◌,
}
use aion_so.Base.Distinct.{Among, Among-++, Among-left, Among-right, Distinct, Distinct-++}
use aion_so.Paging.Tree.{Entries, links, points_to, IsTree}

-- The tables below the first `n` entries of a table, `depth` levels down, each after those below it.
unfoldable pub below : Entries → ℕ → ℕ → ℕ → List ℕ
below m zero t n = []
below m (suc depth) t zero = []
below m (suc depth) t (suc n) =
    let before = below m (suc depth) t n in
    let under = below m depth (points_to (m t n)) 512 in
    if links (m t n) then before ++ (under ++ points_to (m t n) ∷ []) else before

pub below-absent :
    (m : Entries) (depth t n : ℕ)
    → links (m t n) ≡ false
    → below m (suc depth) t (suc n) ≡ below m (suc depth) t n
unfolding below
below-absent m depth t n off = rw off refl

pub below-link :
    (m : Entries) (depth t n : ℕ)
    → links (m t n) ≡ true
    → below m (suc depth) t (suc n)
      ≡ below m (suc depth) t n ++ (below m depth (points_to (m t n)) 512 ++ points_to (m t n) ∷ [])
unfolding below
below-link m depth t n on = rw on refl

module _ (rank : ℕ → ℕ) (m : Entries) (tr : IsTree rank m) where
  -- `a` is `t` or a table below it.
  pub data Descends (t : ℕ) : ℕ → Type 0 where
    here : {a : ℕ} → a ≡ t → Descends t a
    down :
        {a : ℕ} (u i : ℕ)
        → Descends t u
        → rank u < 3
        → i < 512
        → links (m u i) ≡ true
        → a ≡ points_to (m u i)
        → Descends t a

  pub Descends-rank : (t a : ℕ) → Descends t a → rank t ≤ rank a
  Descends-rank t a (Descends.here e) = omega (arith, ap rank e)
  Descends-rank t a (Descends.down u i d h hi on e) =
      omega (arith, Descends-rank t u d, tr.deeper u i h hi on, ap rank e)

  -- A table is below one table of each rank.
  pub Descends-unique : (t u a : ℕ) → Descends t a → Descends u a → rank t ≡ rank u → t ≡ u
  Descends-unique t u a (Descends.here e) (Descends.here f) r = sym e ∙ f
  Descends-unique t u a (Descends.here e) (Descends.down v i d h hi on f) r =
      absurd (omega (arith, Descends-rank u v d, tr.deeper v i h hi on, ap rank e, ap rank f))
  Descends-unique t u a (Descends.down v i d h hi on e) (Descends.here f) r =
      absurd (omega (arith, Descends-rank t v d, tr.deeper v i h hi on, ap rank e, ap rank f))
  Descends-unique t u a (Descends.down v i d h hi on e) (Descends.down w j d' h' hj on' f) r =
      let (same, _) = tr.single v i w j h hi on h' hj on' (sym e ∙ f) in
      Descends-unique t u w (rw (sym same) d) d' r

  Descends-trans : (t u a : ℕ) → Descends t u → Descends u a → Descends t a
  Descends-trans t u a d (Descends.here e) = rw e d
  Descends-trans t u a d (Descends.down v i d' h hi on e) =
      Descends.down v i (Descends-trans t u v d d') h hi on e

  -- Which of the entries of `t` a table below it hangs on.
  abbrev pub Hangs : ℕ → ℕ → ℕ → Type 0
  Hangs t n a = (i : ℕ) × (i < n) × (links (m t i) ≡ true) × Descends (points_to (m t i)) a

  Hangs-Descends : (c a : ℕ) → rank c < 3 → Hangs c 512 a → Descends c a × (rank c < rank a)
  Hangs-Descends c a lt (i, li, on, de) = (
    Descends-trans c (points_to (m c i)) a (Descends.down c i (Descends.here refl) lt li on refl)
        de,
    omega (arith, Descends-rank (points_to (m c i)) a de, tr.deeper c i lt li on),
  )

  below_deep : (depth t n a : ℕ) → Among (below m depth t n) a → 1 ≤ depth
  unfolding below Among
  below_deep zero t n a h = absurd h
  below_deep (suc depth) t n a h = omega arith

  pub below-Hangs :
      (depth t n a : ℕ) → rank t + depth ≤ 3 → n ≤ 512 → Among (below m depth t n) a → Hangs t n a
  unfolding below Among
  below-Hangs zero t n a d lt h = absurd h
  below-Hangs (suc depth) t zero a d lt h = absurd h
  below-Hangs (suc depth) t (suc n) a d lt h = elim (Bool-cases (links (m t n))) [
    | inr off ↦
        let h' : Among (below m (suc depth) t n) a = rw (sym (below-absent m depth t n off)) h in
        let (i, li, on, de) = below-Hangs (suc depth) t n a d (omega arith) h' in
        (i, omega arith, on, de)
    | inl on ↦
        let c : ℕ = points_to (m t n) in
        let deep : rank c ≡ suc (rank t) = tr.deeper t n (omega arith) (omega arith) on in
        let h' : Among (below m (suc depth) t n ++ (below m depth c 512 ++ c ∷ [])) a =
          rw (sym (below-link m depth t n on)) h in
        elim (Among-++ (below m (suc depth) t n) _ a h') [
          | inl p ↦
              let (i, li, on', de) = below-Hangs (suc depth) t n a d (omega arith) p in
              (i, omega arith, on', de)
          | inr p ↦ elim (Among-++ (below m depth c 512) (c ∷ []) a p) [
            | inl q ↦ (
              n,
              omega arith,
              on,
              (Hangs-Descends c a (omega (arith, deep, below_deep depth c 512 a q))
                  (below-Hangs depth c 512 a (omega (arith, deep)) (omega arith) q)).0,
            )
            | inr (inl e) ↦ (n, omega arith, on, Descends.here e)
            | inr (inr q) ↦ absurd q
          ]
        ]
  ]

  pub below-Distinct : (depth t n : ℕ) → rank t + depth ≤ 3 → n ≤ 512 → Distinct (below m depth t n)
  unfolding below Among Distinct
  below-Distinct zero t n d lt = tt
  below-Distinct (suc depth) t zero d lt = tt
  below-Distinct (suc depth) t (suc n) d lt = elim (Bool-cases (links (m t n))) [
    | inr off ↦ rw (below-absent m depth t n off) (below-Distinct (suc depth) t n d (omega arith))
    | inl on ↦
        let c : ℕ = points_to (m t n) in
        let deep : rank c ≡ suc (rank t) = tr.deeper t n (omega arith) (omega arith) on in
        let under : (a : ℕ) → Among (below m depth c 512) a → Descends c a × (rank c < rank a) =
          λ a p.
            Hangs-Descends c a (omega (arith, deep, below_deep depth c 512 a p))
              (below-Hangs depth c 512 a (omega (arith, deep)) (omega arith) p) in
        rw (below-link m depth t n on) (
          Distinct-++ (below m (suc depth) t n) (below m depth c 512 ++ c ∷ [])
            (below-Distinct (suc depth) t n d (omega arith))
            (Distinct-++ (below m depth c 512) (c ∷ [])
              (below-Distinct depth c 512 (omega (arith, deep)) (omega arith))
              ((λ a h. absurd h), tt)
              (λ a p q. elim q [ inl e ↦ omega (arith, (under a p).1, ap rank e) | inr h ↦ h ]))
            (λ a p q.
              let (i, li, on', de) = below-Hangs (suc depth) t n a d (omega arith) p in
              let up : Descends c a = elim (Among-++ (below m depth c 512) (c ∷ []) a q) [
                | inl r ↦ (under a r).0
                | inr (inl e) ↦ Descends.here e
                | inr (inr r) ↦ absurd r
              ] in
              let same : points_to (m t i) ≡ c =
                Descends-unique (points_to (m t i)) c a de up
                  (tr.deeper t i (omega arith) (omega arith) on' ∙ sym deep) in
              let (_, at) =
                tr.single t i t n (omega arith) (omega arith) on' (omega arith) (omega arith) on
                  same in
              omega arith))
  ]

  -- A table below another is that one, or hangs on one of its entries.
  Descends-Hangs : (c a : ℕ) → Descends c a → (a ≡ c) ⊎ ((rank c < rank a) × Hangs c 512 a)
  Descends-Hangs c a (Descends.here e) = inl e
  Descends-Hangs c a (Descends.down u i d h hi on e) =
      let deep : rank a ≡ suc (rank u) = ap rank e ∙ tr.deeper u i h hi on in
      elim (Descends-Hangs c u d) [
        | inl same ↦ inr (
          omega (arith, deep, ap rank same),
          (
            i,
            hi,
            ap (λ x. links (m x i)) (sym same) ∙ on,
            Descends.here (e ∙ ap (λ x. points_to (m x i)) same),
          ),
        )
        | inr (lower, (j, hj, on', under)) ↦
            inr (omega (arith, deep), (j, hj, on', Descends.down u i under h hi on e))
      ]

  -- No table on the way down is left out.
  pub Hangs-below :
      (depth t n a : ℕ)
      → rank t + depth ≤ 3
      → n ≤ 512
      → rank t < rank a
      → rank a ≤ rank t + depth
      → Hangs t n a
      → Among (below m depth t n) a
  unfolding below Among
  Hangs-below zero t n a d lt low near h = absurd (omega arith)
  Hangs-below (suc depth) t zero a d lt low near (i, li, on, de) = absurd (omega arith)
  Hangs-below (suc depth) t (suc n) a d lt low near (i, li, on, de) =
      elim (Bool-cases (links (m t n))) [
        | inr off ↦
            let ne : i ≢ n = λ e. ground (arith, on, ap (λ j. links (m t j)) e ∙ off) in
            rw (below-absent m depth t n off) (
              Hangs-below (suc depth) t n a d (omega arith) low near (i, omega (arith, ne), on, de))
        | inl linked ↦
            let c : ℕ = points_to (m t n) in
            let deep : rank c ≡ suc (rank t) = tr.deeper t n (omega arith) (omega arith) linked in
            rw (below-link m depth t n linked) (elim (Bool-cases (i == n)) [
              | inr ne ↦ Among-left (below m (suc depth) t n) _ a (
                  Hangs-below (suc depth) t n a d (omega arith) low near
                    (i, ground (arith, li, ne), on, de))
              | inl e ↦
                  Among-right (below m (suc depth) t n) _ a
                    (elim (Descends-Hangs c a (rw (sym (==→eq i n e)) de)) [
                      | inl same ↦ Among-right (below m depth c 512) (c ∷ []) a (inl same)
                      | inr (lower, under) ↦ Among-left (below m depth c 512) (c ∷ []) a (
                          Hangs-below depth c 512 a (omega (arith, deep)) (omega arith) lower
                            (omega (arith, deep)) under)
                    ])
            ])
      ]
