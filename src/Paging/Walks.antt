-- ===== src/Paging/Walks.antt =====
-- arch/x86_64/src/paging.rs: what a walk finds through a leaf cell, and what a change there does.
use aion_so.Base.{
  ℕ, suc, ◌+◌, ◌<◌, ◌≡◌, refl, sym, ap, ◌∙◌, Bool, true, false, ◌&&◌, List, [], ◌∷◌, none, some,
  arith, ◌≢◌, inl, inr, Bool-cases, length, some_inj,
}
use aion_so.Paging.Entries.{is_set, present, writable}
use aion_so.Paging.{translate_from, resolved, stored}
use aion_so.Paging.Tree.{
  Entries, links, points_to, IsTree, cell_of, IsIndices, cell_of_step, cell_of_link, stored_other,
  visit-link, visit_alike,
}

-- What a walk finds through a leaf cell that holds the entry of a 4 KiB page.
pub translate_from-cell :
    (rank : ℕ → ℕ) (m : Entries)
    → IsTree rank m
    → (is : List ℕ) (t k va : ℕ) (c : ℕ × ℕ) (w w' : Bool) → IsIndices is
    → rank t ≡ k
    → k + length is ≡ 4
    → cell_of m is t ≡ some c
    → is_set (m c.0 c.1) present ≡ true
    → is_set (m c.0 c.1) writable ≡ w'
    → translate_from m va k is t w ≡ some (resolved va 3 (m c.0 c.1) (w && w'))
unfolding translate_from cell_of
translate_from-cell rank m tr [] t k va c w w' hi r d p e f = ground arith
translate_from-cell rank m tr (i ∷ []) t k va c w w' hi r d p e f =
    let here : (t, i) ≡ c = some_inj _ _ p in
    let k3 : k ≡ 3 = omega arith in
    rw (k3, ap (λ (d : ℕ × ℕ). m d.0 d.1) here) (ground (arith, e, f))
translate_from-cell rank m tr (i ∷ (j ∷ js)) t k va c w w' hi r d p e f =
    let (on, rest) = cell_of_step m i j js t c p in
    let deep : rank (points_to (m t i)) ≡ suc (rank t) = tr.deeper t i (omega arith) hi.0 on in
    let wr : is_set (m t i) writable ≡ true = tr.granting t i (omega arith) hi.0 on in
    visit-link m va k i (j ∷ js) t w (omega arith) on
    ∙ ap (λ b. translate_from m va (suc k) (j ∷ js) (points_to (m t i)) b) (and_true w wr)
    ∙ translate_from-cell rank m tr (j ∷ js) (points_to (m t i)) (suc k) va c w w' hi.1
        (omega arith) (omega arith) rest e f
  where
    and_true : (w : Bool) {b : Bool} → b ≡ true → (w && b) ≡ w
    and_true w e = ground arith

-- A changed cell matters only to the walk that ends there.
pub translate_from-leaf :
    (rank : ℕ → ℕ) (m : Entries)
    → IsTree rank m
    → (is : List ℕ) (t k va u j v : ℕ) (w : Bool) → IsIndices is
    → rank t ≡ k
    → k + length is ≡ 4
    → rank u ≡ 3
    → cell_of m is t ≢ some (u, j)
    → translate_from (stored m u j v) va k is t w ≡ translate_from m va k is t w
unfolding translate_from cell_of stored
translate_from-leaf rank m tr [] t k va u j v w hi r d ru ne = refl
translate_from-leaf rank m tr (i ∷ []) t k va u j v w hi r d ru ne =
    visit_alike m (stored m u j v) va k i [] t t w
      (stored_other m u j v t i (λ e f. ne (ap some (ap (λ x. (x, i)) e ∙ ap (λ x. (u, x)) f))))
      (λ on h. absurd (omega arith)) (omega arith)
translate_from-leaf rank m tr (i ∷ (i' ∷ is)) t k va u j v w hi r d ru ne =
    visit_alike m (stored m u j v) va k i (i' ∷ is) t t w (ground arith)
      (λ on h.
        translate_from-leaf rank m tr (i' ∷ is) (points_to (m t i)) (suc k) va u j v _ hi.1
          (omega (arith, tr.deeper t i (omega arith) hi.0 on)) (omega arith) ru
          (λ q. ne (cell_of_link m i i' is t on ∙ q)))
      (omega arith)

-- A walk that ends at an empty leaf cell finds nothing.
pub translate_from-empty :
    (rank : ℕ → ℕ) (m : Entries)
    → IsTree rank m
    → (is : List ℕ) (t k va : ℕ) (c : ℕ × ℕ) (w : Bool) → IsIndices is
    → rank t ≡ k
    → k + length is ≡ 4
    → cell_of m is t ≡ some c
    → is_set (m c.0 c.1) present ≡ false
    → translate_from m va k is t w ≡ none
unfolding translate_from cell_of
translate_from-empty rank m tr [] t k va c w hi r d p e = refl
translate_from-empty rank m tr (i ∷ []) t k va c w hi r d p e =
    let here : (t, i) ≡ c = some_inj _ _ p in rw (ap (λ (d : ℕ × ℕ). m d.0 d.1) here, e) refl
translate_from-empty rank m tr (i ∷ (j ∷ js)) t k va c w hi r d p e =
    let (on, rest) = cell_of_step m i j js t c p in
    let deep : rank (points_to (m t i)) ≡ suc (rank t) = tr.deeper t i (omega arith) hi.0 on in
    visit-link m va k i (j ∷ js) t w (omega arith) on
    ∙ translate_from-empty rank m tr (j ∷ js) (points_to (m t i)) (suc k) va c _ hi.1 (omega arith)
        (omega arith) rest e

-- Changing a leaf cell leaves the tree.
pub stored-IsTree :
    (rank : ℕ → ℕ) (m : Entries) (u j v : ℕ)
    → IsTree rank m
    → rank u ≡ 3
    → IsTree rank (stored m u j v)
stored-IsTree rank m u j v tr r = record {
  deeper = λ t i h hi on. rw (other t i h) (tr.deeper t i h hi (sym (ap links (other t i h)) ∙ on));
  single = λ t i t' i' h hi on h' hi' on' e.
      tr.single t i t' i' h hi (sym (ap links (other t i h)) ∙ on) h' hi'
        (sym (ap links (other t' i' h')) ∙ on')
        (sym (ap points_to (other t i h)) ∙ e ∙ ap points_to (other t' i' h'));
  granting =
      λ t i h hi on. rw (other t i h) (tr.granting t i h hi (sym (ap links (other t i h)) ∙ on));
}
  where
    other : (t i : ℕ) → rank t < 3 → stored m u j v t i ≡ m t i
    other t i h = stored_other m u j v t i (λ e _. omega (arith, ap rank e))

-- The leaf cell of a page is found again after it has changed.
pub cell_of-stored :
    (rank : ℕ → ℕ) (m : Entries) (u j v : ℕ)
    → IsTree rank m
    → rank u ≡ 3
    → (is : List ℕ) (t : ℕ) → IsIndices is
    → rank t + length is ≡ 4
    → cell_of (stored m u j v) is t ≡ cell_of m is t
unfolding cell_of
cell_of-stored rank m u j v tr r [] t hi d = refl
cell_of-stored rank m u j v tr r (i ∷ []) t hi d = refl
cell_of-stored rank m u j v tr r (i ∷ (i' ∷ is)) t hi d =
    let same : stored m u j v t i ≡ m t i =
      stored_other m u j v t i (λ e _. omega (arith, ap rank e)) in
    rw same (elim (Bool-cases (links (m t i))) [
      | inr off ↦ rw off refl
      | inl on ↦ rw on (
          cell_of-stored rank m u j v tr r (i' ∷ is) (points_to (m t i)) hi.1
            (omega (arith, tr.deeper t i (omega arith) hi.0 on)))
    ])
