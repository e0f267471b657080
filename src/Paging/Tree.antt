-- ===== src/Paging/Tree.antt =====
-- arch/x86_64/src/paging.rs: the tables as a tree. Every table has a rank, its distance from the
-- root, and the page that an address reaches is found on one path.
use Prim.Native.Nat.{bit_and}
use aion_so.Base.{
  ℕ, suc, ◌+◌, ◌<◌, ◌≤◌, ◌≡◌, refl, sym, ap, ◌∙◌, Bool, true, false, not, ◌&&◌, List, [], ◌∷◌, ◌++◌,
  Option, none, some, ◌==◌, arith, inl, inr, Bool-cases, if◌then◌else◌, All, length, some_inj,
  ==_refl, ==→eq,
}
use aion_so.Paging.Entries.{is_set, present, writable, huge, address_mask}
use aion_so.Paging.{translate_from, stored}

-- The memory of the tables.
abbrev pub Entries : Type 0
Entries = ℕ → ℕ → ℕ

-- An entry that leads to another table.
abbrev pub links : ℕ → Bool
links e = is_set e present && not (is_set e huge)

abbrev pub points_to : ℕ → ℕ
points_to e = bit_and e address_mask

-- `rank` below 4 is a table's level; anything else is no table of this tree. Every link is to be
-- writable (`granting`), as `map` makes it: then the leaf alone decides what may be written.
pub record IsTree (rank : ℕ → ℕ) (m : Entries) : Type 0 where
  pub deeper :
      (t i : ℕ)
      → rank t < 3
      → i < 512
      → links (m t i) ≡ true
      → rank (points_to (m t i)) ≡ suc (rank t)
  pub single :
      (t i u j : ℕ)
      → rank t < 3
      → i < 512
      → links (m t i) ≡ true
      → rank u < 3
      → j < 512
      → links (m u j) ≡ true
      → points_to (m t i) ≡ points_to (m u j)
      → (t ≡ u) × (i ≡ j)
  pub granting :
      (t i : ℕ) → rank t < 3 → i < 512 → links (m t i) ≡ true → is_set (m t i) writable ≡ true

-- The cell that holds the leaf of a 4 KiB page, if every table on the way is there.
unfoldable pub cell_of : Entries → List ℕ → ℕ → Option (ℕ × ℕ)
cell_of m [] t = none
cell_of m (i ∷ []) t = some (t, i)
cell_of m (i ∷ (j ∷ js)) t =
    let rest = cell_of m (j ∷ js) (points_to (m t i)) in if links (m t i) then rest else none

abbrev pub IsIndices : List ℕ → Type 0
IsIndices = All (λ i. i < 512)

pub cell_of_step :
    (m : Entries) (i j : ℕ) (js : List ℕ) (t : ℕ) (c : ℕ × ℕ)
    → cell_of m (i ∷ (j ∷ js)) t ≡ some c
    → (links (m t i) ≡ true) × (cell_of m (j ∷ js) (points_to (m t i)) ≡ some c)
unfolding cell_of
cell_of_step m i j js t c p = elim (Bool-cases (links (m t i))) [
  | inl on ↦ ground (arith, on, p)
  | inr off ↦ ground (arith, off, p)
]

pub cell_of_link :
    (m : Entries) (i j : ℕ) (js : List ℕ) (t : ℕ)
    → links (m t i) ≡ true
    → cell_of m (i ∷ (j ∷ js)) t ≡ cell_of m (j ∷ js) (points_to (m t i))
unfolding cell_of
cell_of_link m i j js t on = ground (arith, on)

pub cell_of_below :
    (m : Entries) (i : ℕ) (is : List ℕ) (j t : ℕ)
    → links (m t i) ≡ true
    → cell_of m (i ∷ (is ++ j ∷ [])) t ≡ cell_of m (is ++ j ∷ []) (points_to (m t i))
cell_of_below m i [] j t on = cell_of_link m i j [] t on
cell_of_below m i (i' ∷ is) j t on = cell_of_link m i i' (is ++ j ∷ []) t on

pub stored_other : (m : Entries) (u j v t i : ℕ) → (t ≡ u → ¬ (i ≡ j)) → stored m u j v t i ≡ m t i
unfolding stored
stored_other m u j v t i ne = elim (Bool-cases (t == u)) [
  | inr e ↦ rw e refl
  | inl e ↦ elim (Bool-cases (i == j)) [
    | inr f ↦ rw (e, f) refl
    | inl f ↦ absurd (ne (==→eq t u e) (==→eq i j f))
  ]
]

pub stored_same : (m : Entries) (u j v : ℕ) → stored m u j v u j ≡ v
unfolding stored
stored_same m u j v = rw (==_refl u, ==_refl j) refl

-- A cell is the leaf of one path only.
pub cell_of_inj :
    (rank : ℕ → ℕ) (m : Entries)
    → IsTree rank m
    → (is js : List ℕ) (t u : ℕ) (c : ℕ × ℕ) → IsIndices is
    → IsIndices js
    → rank t ≡ rank u
    → rank t + length is ≡ 4
    → length is ≡ length js
    → cell_of m is t ≡ some c
    → cell_of m js u ≡ some c
    → (t ≡ u) × (is ≡ js)
unfolding cell_of
cell_of_inj rank m tr [] js t u c hi hj r d l p q = ground arith
cell_of_inj rank m tr (i ∷ is) [] t u c hi hj r d l p q = ground arith
cell_of_inj rank m tr (i ∷ []) (j ∷ []) t u c hi hj r d l p q =
    ground (arith, some_inj _ _ (p ∙ sym q))
cell_of_inj rank m tr (i ∷ []) (j ∷ (j' ∷ js)) t u c hi hj r d l p q = ground arith
cell_of_inj rank m tr (i ∷ (i' ∷ is)) (j ∷ []) t u c hi hj r d l p q = ground arith
cell_of_inj rank m tr (i ∷ (i' ∷ is)) (j ∷ (j' ∷ js)) t u c hi hj r d l p q =
    let (on, rest_p) = cell_of_step m i i' is t c p in
    let (on', rest_q) = cell_of_step m j j' js u c q in
    let dt : rank (points_to (m t i)) ≡ suc (rank t) = tr.deeper t i (omega arith) hi.0 on in
    let du : rank (points_to (m u j)) ≡ suc (rank u) = tr.deeper u j (omega arith) hj.0 on' in
    let (same, rest) =
      cell_of_inj rank m tr (i' ∷ is) (j' ∷ js) (points_to (m t i)) (points_to (m u j)) c hi.1 hj.1
        (omega arith) (omega arith) (omega arith) rest_p rest_q in
    let (e, f) = tr.single t i u j (omega arith) hi.0 on (omega arith) hj.0 on' same in
    (e, ap (λ x. x ∷ (i' ∷ is)) f ∙ ap (λ xs. j ∷ xs) rest)

-- One step of `translate_from`, by the entry that it meets.
pub visit-absent :
    (m : Entries) (va k i : ℕ) (is : List ℕ) (t : ℕ) (w : Bool)
    → is_set (m t i) present ≡ false
    → translate_from m va k (i ∷ is) t w ≡ none
unfolding translate_from
visit-absent m va k i is t w h = rw h refl

pub visit-link :
    (m : Entries) (va k i : ℕ) (is : List ℕ) (t : ℕ) (w : Bool)
    → k < 3
    → links (m t i) ≡ true
    → translate_from m va k (i ∷ is) t w
      ≡ translate_from m va (suc k) is (points_to (m t i)) (w && is_set (m t i) writable)
unfolding translate_from
visit-link m va k i is t w h on = ground arith

pub visit_alike :
    (m n : Entries) (va k i : ℕ) (is : List ℕ) (t u : ℕ) (w : Bool)
    → n u i ≡ m t i
    → (links (m t i) ≡ true
        → k < 3
        → translate_from n va (suc k) is (points_to (m t i)) (w && is_set (m t i) writable)
          ≡ translate_from m va (suc k) is (points_to (m t i)) (w && is_set (m t i) writable))
    → k ≤ 3
    → translate_from n va k (i ∷ is) u w ≡ translate_from m va k (i ∷ is) t w
unfolding translate_from
visit_alike m n va k i is t u w e rest h = rw e (ground (arith, rest))
