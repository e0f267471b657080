-- ===== src/Paging/SharedTrees.antt =====
-- arch/x86_64/src/paging.rs: a table outside the tree that is filled with entries of its root leaves
-- the tree and its translations as they were, and is the root of a tree.
use aion_so.Base.{
  ℕ, suc, Bool, List, [], ◌∷◌, ◌+◌, length, ◌⊎◌, ◌<◌, ◌≤◌, ◌≡◌, refl, sym, ap, ◌∙◌, true, ◌==◌, ◌⊎◌,
  if◌then◌else◌, arith, ◌≢◌, inl, inr, Bool-cases, ==_refl, ==→eq, ==→ne, ==_of_ne,
}
use aion_so.Paging.Entries.{is_set, present, writable}
use aion_so.Paging.Bits.{is_set_zero}
use aion_so.Paging.Tree.{Entries, links, points_to, IsTree, IsIndices, visit_alike}
use aion_so.Paging.{translate_from}

-- Memory that differs only in a table outside the tree.
pub agree_sees :
    (rank : ℕ → ℕ) (m m' : Entries) (n : ℕ)
    → IsTree rank m
    → 4 ≤ rank n
    → ((a i : ℕ) → a ≢ n → m' a i ≡ m a i)
    → (va k : ℕ) (is : List ℕ) (t : ℕ) (w : Bool) → IsIndices is
    → rank t ≡ k
    → k < 4
    → k + length is ≡ 4
    → translate_from m' va k is t w ≡ translate_from m va k is t w
unfolding translate_from
agree_sees rank m m' n tr fresh same va k [] t w hi r lt d = refl
agree_sees rank m m' n tr fresh same va k (i ∷ is) t w hi r lt d =
    visit_alike m m' va k i is t t w (same t i (λ p. omega (arith, ap rank p)))
      (λ on h.
        agree_sees rank m m' n tr fresh same va (suc k) is (points_to (m t i)) _ hi.1
          (omega (arith, tr.deeper t i (omega arith) hi.0 on)) (omega arith) (omega arith))
      (omega arith)

-- Tables that are a tree below `root`, with no table among those that were outside the old tree.
pub record Planted (rank : ℕ → ℕ) (m : Entries) (root : ℕ) : Type 0 where
  pub rank' : ℕ → ℕ
  pub tree : IsTree rank' m
  pub top : rank' root ≡ 0
  pub apart : (a : ℕ) → 4 ≤ rank a → a ≢ root → 4 ≤ rank' a

module _ (rank : ℕ → ℕ) (m m' : Entries) (tr : IsTree rank m) (n : ℕ) (fresh : 4 ≤ rank n)
    (same : (a i : ℕ) → a ≢ n → m' a i ≡ m a i) where
  outside : (t i : ℕ) → rank t < 3 → m' t i ≡ m t i
  outside t i h = same t i (λ p. omega (arith, ap rank p))

  -- A table outside the tree is written to.
  pub agree-IsTree : IsTree rank m'
  agree-IsTree = record {
    deeper = λ t i h hi on.
        rw (outside t i h) (tr.deeper t i h hi (sym (ap links (outside t i h)) ∙ on));
    single = λ t i t' i' h hi on h' hi' on' e.
        tr.single t i t' i' h hi (sym (ap links (outside t i h)) ∙ on) h' hi'
          (sym (ap links (outside t' i' h')) ∙ on')
          (sym (ap points_to (outside t i h)) ∙ e ∙ ap points_to (outside t' i' h'));
    granting = λ t i h hi on.
        rw (outside t i h) (tr.granting t i h hi (sym (ap links (outside t i h)) ∙ on));
  }

  module _ (root : ℕ) (top : rank root ≡ 0)
      (copies : (i : ℕ) → i < 512 → (m' n i ≡ m root i) ⊎ (m' n i ≡ 0)) where
    -- The tables below the new root: it, and those below the old one.
    unfoldable new_rank : ℕ → ℕ
    new_rank a = if a == n then 0 else if a == root then 4 else rank a

    -- The table that an entry below the new root was copied from.
    unfoldable origin : ℕ → ℕ
    origin t = if t == n then root else t

    new_rank_new : new_rank n ≡ 0
    unfolding new_rank
    new_rank_new = rw (==_refl n) refl

    new_rank_below : (a : ℕ) → 0 < rank a → rank a < 4 → new_rank a ≡ rank a
    unfolding new_rank
    new_rank_below a lo hi =
        rw
          (
            ==_of_ne a n (λ p. omega (arith, ap rank p)),
            ==_of_ne a root (λ p. omega (arith, ap rank p)),
          )
          refl

    new_rank_apart : (a : ℕ) → 4 ≤ rank a → a ≢ n → 4 ≤ new_rank a
    unfolding new_rank
    new_rank_apart a h ne = rw (==_of_ne a n ne, ==_of_ne a root (λ p. omega (arith, ap rank p))) h

    no_link : {e : ℕ} → e ≡ 0 → ¬ (links e ≡ true)
    no_link z on = ground (arith, ap (λ x. is_set x present) z ∙ is_set_zero, on)

    origin_lem :
        (t i : ℕ)
        → new_rank t < 3
        → i < 512
        → links (m' t i) ≡ true
        → (m' t i ≡ m (origin t) i) × (rank (origin t) ≡ new_rank t)
    unfolding new_rank origin
    origin_lem t i h hi on = elim (Bool-cases (t == n)) [
      | inl e ↦
          let at : t ≡ n = ==→eq t n e in
          let here : m' t i ≡ m' n i = ap (λ a. m' a i) at in
          elim (copies i hi) [
            | inl copy ↦ rw e (here ∙ copy, top)
            | inr nothing ↦ absurd (no_link (here ∙ nothing) on)
          ]
      | inr e ↦ elim (Bool-cases (t == root)) [
        | inl r ↦ absurd (ground (arith, h, e, r))
        | inr r ↦ rw (e, r) (same t i (==→ne t n e), refl)
      ]
    ]

    origin_inj : (t u : ℕ) → new_rank t < 3 → new_rank u < 3 → origin t ≡ origin u → t ≡ u
    unfolding new_rank origin
    origin_inj t u h k e = ground arith

    -- An entry below the new root leads to neither root.
    new_deeper :
        (t i : ℕ)
        → new_rank t < 3
        → i < 512
        → links (m' t i) ≡ true
        → new_rank (points_to (m' t i)) ≡ suc (new_rank t)
    new_deeper t i h hi on =
        let (copy, level) = origin_lem t i h hi on in
        let deep : rank (points_to (m' t i)) ≡ suc (rank (origin t)) =
          ap (λ e. rank (points_to e)) copy
          ∙ tr.deeper (origin t) i (omega arith) hi (sym (ap links copy) ∙ on) in
        new_rank_below (points_to (m' t i)) (omega arith) (omega arith) ∙ deep ∙ ap suc level

    new-IsTree : IsTree new_rank m'
    new-IsTree = record {
      deeper = new_deeper;
      single = λ t i u j h hi on h' hj on' e.
          let (copy, level) = origin_lem t i h hi on in
          let (copy', level') = origin_lem u j h' hj on' in
          let (from, at) =
            tr.single (origin t) i (origin u) j (omega arith) hi (sym (ap links copy) ∙ on)
              (omega arith) hj (sym (ap links copy') ∙ on')
              (sym (ap points_to copy) ∙ e ∙ ap points_to copy') in
          (origin_inj t u h h' from, at);
      granting = λ t i h hi on.
          let (copy, level) = origin_lem t i h hi on in
          ap (λ e. is_set e writable) copy
          ∙ tr.granting (origin t) i (omega arith) hi (sym (ap links copy) ∙ on);
    }

    pub new-Planted : Planted rank m' n
    new-Planted = record {
      rank' = new_rank;
      tree = new-IsTree;
      top = new_rank_new;
      apart = new_rank_apart;
    }
