-- ===== src/Paging/Growth.antt =====
-- arch/x86_64/src/paging.rs: what one level of `map`'s walk does to the tree: a zeroed table is
-- linked where there was none, or a link is opened to ring 3.
use Prim.Native.Nat.{bit_or}
use aion_so.Base.{
  ℕ, zero, suc, ◌+◌, ◌<◌, ◌≡◌, refl, sym, ◌∙◌, Bool, true, ◌&&◌, List, [], ◌∷◌, ◌==◌, arith, ◌≢◌,
  inl, inr, Bool-cases, length, ==→eq, ==→ne,
}
use aion_so.Paging.Entries.{is_set, present, user, writable, huge}
use aion_so.Paging.Bits.{Reads, upgraded-Reads, address-upgraded}
use aion_so.Paging.Tree.{Entries, links, points_to, IsTree, IsIndices, stored_other, stored_same}
use aion_so.Paging.{translate_from, resolved, stored, zeroed}

-- A tree that has kept its tables, its links and every translation.
pub record Grown (rank : ℕ → ℕ) (m : Entries) (rank' : ℕ → ℕ) (m' : Entries) : Type 0 where
  pub tree : IsTree rank' m'
  pub ranks : (t : ℕ) → rank t < 4 → rank' t ≡ rank t
  pub kept :
      (t i : ℕ)
      → rank t < 3
      → i < 512
      → links (m t i) ≡ true
      → (links (m' t i) ≡ true) × (points_to (m' t i) ≡ points_to (m t i))
  pub sees :
      (va k : ℕ) (is : List ℕ) (t : ℕ) (w : Bool)
      → IsIndices is
      → rank t ≡ k
      → k < 4
      → k + length is ≡ 4
      → translate_from m' va k is t w ≡ translate_from m va k is t w

pub Grown-refl : (rank : ℕ → ℕ) (m : Entries) → IsTree rank m → Grown rank m rank m
Grown-refl rank m tr = record {
  tree = tr;
  ranks = λ t h. refl;
  kept = λ t i h hi on. (on, refl);
  sees = λ va k is t w hi r lt d. refl;
}

pub Grown-trans :
    (rank rank' rank'' : ℕ → ℕ) (m m' m'' : Entries)
    → Grown rank m rank' m'
    → Grown rank' m' rank'' m''
    → Grown rank m rank'' m''
Grown-trans rank rank' rank'' m m' m'' g h = record {
  tree = h.tree;
  ranks = λ t lt. omega (arith, g.ranks t lt, h.ranks t (omega (arith, g.ranks t lt)));
  kept = λ t i lt hi on.
      let first : (links (m' t i) ≡ true) × (points_to (m' t i) ≡ points_to (m t i)) =
        g.kept t i lt hi on in
      let second : (links (m'' t i) ≡ true) × (points_to (m'' t i) ≡ points_to (m' t i)) =
        h.kept t i (omega (arith, g.ranks t (omega arith))) hi first.0 in
      (second.0, second.1 ∙ first.1);
  sees = λ va k is t w hi r lt d.
      h.sees va k is t w hi (g.ranks t (omega arith) ∙ r) lt d ∙ g.sees va k is t w hi r lt d;
}

pub zeroed_other : (m : Entries) (n u t i : ℕ) → t ≢ n → zeroed m n u t i ≡ m t i
unfolding zeroed
zeroed_other m n zero t i ne = refl
zeroed_other m n (suc u) t i ne =
    stored_other (zeroed m n u) n u 0 t i (λ e f. ne e) ∙ zeroed_other m n u t i ne

pub zeroed_same : (m : Entries) (n u i : ℕ) → i < u → zeroed m n u n i ≡ 0
unfolding zeroed
zeroed_same m n zero i h = absurd (omega arith)
zeroed_same m n (suc u) i h = elim (Bool-cases (i == u)) [
  | inl e ↦ let same : i ≡ u = ==→eq i u e in rw same (stored_same (zeroed m n u) n u 0)
  | inr e ↦
      stored_other (zeroed m n u) n u 0 n i (λ _ f. ==→ne i u e f)
      ∙ zeroed_same m n u i (ground arith)
]

-- An entry that reads as another for every purpose of a walk.
pub record Alike (e e' : ℕ) : Type 0 where
  pub there : is_set e' present ≡ is_set e present
  pub large : is_set e' huge ≡ is_set e huge
  pub writes : is_set e' writable ≡ is_set e writable
  pub points : points_to e' ≡ points_to e

pub Alike-refl : (e : ℕ) → Alike e e
Alike-refl e = record { there = refl; large = refl; writes = refl; points = refl }

pub stored-Alike :
    (m : Entries) (u j v : ℕ) → Alike (m u j) v → (t i : ℕ) → Alike (m t i) (stored m u j v t i)
stored-Alike m u j v a t i = elim (Bool-cases (t == u && i == j)) [
  | inl q ↦
      let p : t ≡ u = ground arith in
      let r : i ≡ j = ground arith in rw (p, r, stored_same m u j v) a
  | inr q ↦ rw (stored_other m u j v t i (λ x y. ground arith)) (Alike-refl (m t i))
]

pub links_of : (e a : ℕ) (w : Bool) → Reads e a w → links e ≡ true
links_of e a w r = ground (arith, r.is_present, r.is_small)

pub upgraded-Alike : (e : ℕ) → Alike e (bit_or e user)
upgraded-Alike e = record {
  there = ground (arith, upgraded-Reads e 0);
  large = ground (arith, upgraded-Reads e 7);
  writes = ground (arith, upgraded-Reads e 1);
  points = address-upgraded e;
}

sees-Alike :
    (m m' : Entries)
    → ((t i : ℕ) → Alike (m t i) (m' t i))
    → (va k : ℕ) (is : List ℕ) (t : ℕ) (w : Bool)
    → translate_from m' va k is t w ≡ translate_from m va k is t w
unfolding translate_from resolved
sees-Alike m m' a va k [] t w = refl
sees-Alike m m' a va k (i ∷ is) t w =
    rw
      (
        (a t i).there,
        (a t i).large,
        (a t i).writes,
        (a t i).points,
        sees-Alike m m' a va (suc k) is (points_to (m t i)) (w && is_set (m t i) writable),
      )
      refl

pub Grown-Alike :
    (rank : ℕ → ℕ) (m m' : Entries)
    → IsTree rank m
    → ((t i : ℕ) → Alike (m t i) (m' t i))
    → Grown rank m rank m'
Grown-Alike rank m m' tr a = record {
  tree = record {
    deeper = λ t i h hi on. rw (a t i).points (tr.deeper t i h hi (links_alike (a t i) on));
    single = λ t i u j h hi on hu hj on' e.
        tr.single t i u j h hi (links_alike (a t i) on) hu hj (links_alike (a u j) on')
          (sym (a t i).points ∙ e ∙ (a u j).points);
    granting = λ t i h hi on. (a t i).writes ∙ tr.granting t i h hi (links_alike (a t i) on);
  };
  ranks = λ t h. refl;
  kept = λ t i h hi on. (links_alike' (a t i) on, (a t i).points);
  sees = λ va k is t w hi r lt d. sees-Alike m m' a va k is t w;
}
  where
    links_alike : {e e' : ℕ} → Alike e e' → links e' ≡ true → links e ≡ true
    links_alike a on = ground (arith, a.there, a.large, on)

    links_alike' : {e e' : ℕ} → Alike e e' → links e ≡ true → links e' ≡ true
    links_alike' a on = ground (arith, a.there, a.large, on)
