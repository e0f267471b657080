-- ===== src/Paging/Releasing.antt =====
-- arch/x86_64/src/paging.rs: `free_lower_half` gives back every table of the lower half, once each.
use aion_so.Base.{
  ℕ, zero, suc, ◌+◌, ◌<◌, ◌≤◌, ◌≡◌, refl, sym, ap, ◌∙◌, Bool, true, false, arith, ◌≢◌, inl, inr,
  ◌==◌, ==→eq, ==→ne, Bool-cases,
}
use aion_so.Hal.Frame.{PhysFrame}
use aion_so.Paging.Entries.{is_set, present, huge}
use aion_so.Paging.Bits.{is_set_zero}
use aion_so.Paging.Tree.{Entries, links, points_to, IsTree, stored_other, stored_same}
use aion_so.Paging.Below.{below, below-absent, below-link}
use aion_so.Paging.Freeing.{Freed, hand_back, free_directories, free_slots}
use aion_so.Paging.{stored}
use aion_so.Paging.Handing.{given, given_last, free_directories_lem}

-- Memory in which the first `n` entries of the root are absent, and all else is xs it was.
pub record Cleared (m m' : Entries) (root n : ℕ) : Type 0 where
  pub other : (a i : ℕ) → a ≢ root → m' a i ≡ m a i
  pub above : (i : ℕ) → n ≤ i → m' root i ≡ m root i
  pub gone : (i : ℕ) → i < n → is_set (m' root i) present ≡ false

-- What hangs below the root is the same in memory that differs only in the root.
below-same :
    (rank : ℕ → ℕ) (m m' : Entries) (root : ℕ)
    → IsTree rank m
    → rank root ≡ 0
    → ((a i : ℕ) → a ≢ root → m' a i ≡ m a i)
    → (depth t n : ℕ) → 1 ≤ rank t
    → rank t + depth ≤ 3
    → n ≤ 512
    → below m' depth t n ≡ below m depth t n
unfolding below
below-same rank m m' root tr top same zero t n lo d lt = refl
below-same rank m m' root tr top same (suc depth) t zero lo d lt = refl
below-same rank m m' root tr top same (suc depth) t (suc n) lo d lt =
    let here : m' t n ≡ m t n = same t n (λ p. omega (arith, ap rank p)) in
    let before : below m' (suc depth) t n ≡ below m (suc depth) t n =
      below-same rank m m' root tr top same (suc depth) t n lo d (omega arith) in
    elim (Bool-cases (links (m t n))) [
      | inr off ↦
          below-absent m' depth t n (ap links here ∙ off)
          ∙ before
          ∙ sym (below-absent m depth t n off)
      | inl on ↦
          let c : ℕ = points_to (m t n) in
          let deep : rank c ≡ suc (rank t) = tr.deeper t n (omega arith) (omega arith) on in
          let under : below m' depth c 512 ≡ below m depth c 512 =
            below-same rank m m' root tr top same depth c 512 (omega (arith, deep))
              (omega (arith, deep)) (omega arith) in
          below-link m' depth t n (ap links here ∙ on)
          ∙ rw (here, before, under) (sym (below-link m depth t n on))
    ]

module _ {G : Type 0} (give_back : G → PhysFrame → G × Bool) where
  free_slots-absent :
      (m : Entries) (root n : ℕ) (h : Freed G)
      → is_set ((free_slots give_back m root n h).0 root n) present ≡ false
      → free_slots give_back m root (suc n) h ≡ free_slots give_back m root n h
  unfolding free_slots
  free_slots-absent m root n h off = rw off refl

  free_slots-present :
      (m : Entries) (root n : ℕ) (h : Freed G)
      → is_set ((free_slots give_back m root n h).0 root n) present ≡ true
      → let (before, h') = free_slots give_back m root n h in
        let c = points_to (before root n) in
        free_slots give_back m root (suc n) h ≡ (
          stored before root n 0,
          hand_back give_back (free_directories give_back before c 512 h') c,
        )
  unfolding free_slots
  free_slots-present m root n h on = rw on refl

  free_slots_zero :
      (m : Entries) (root : ℕ) (h : Freed G)
      → Cleared m (free_slots give_back m root 0 h).0 root 0
        × ((free_slots give_back m root 0 h).1 ≡ given give_back h (below m 3 root 0))
  unfolding free_slots given below
  free_slots_zero m root h = (
    record { other = λ a i ne. refl; above = λ i l. refl; gone = λ i l. absurd (omega arith) },
    refl,
  )

  pub free_slots_lem :
      (rank : ℕ → ℕ) (m : Entries) (root : ℕ)
      → IsTree rank m
      → rank root ≡ 0
      → (n : ℕ) → n ≤ 512
      → ((i : ℕ) → i < n → is_set (m root i) huge ≡ false)
      → (h : Freed G)
      → Cleared m (free_slots give_back m root n h).0 root n
        × ((free_slots give_back m root n h).1 ≡ given give_back h (below m 3 root n))
  free_slots_lem rank m root tr top zero lt small h = free_slots_zero m root h
  free_slots_lem rank m root tr top (suc n) lt small h =
      let (cleared, so_far) =
        free_slots_lem rank m root tr top n (omega arith) (λ i l. small i (omega arith)) h in
      let before : Entries = (free_slots give_back m root n h).0 in
      let here : before root n ≡ m root n = cleared.above n (omega arith) in
      elim (Bool-cases (is_set (m root n) present)) [
        | inr off ↦
            let same : free_slots give_back m root (suc n) h ≡ free_slots give_back m root n h =
              free_slots-absent m root n h (ap (λ e. is_set e present) here ∙ off) in
            let none_there : links (m root n) ≡ false = ground (arith, off) in
            (
              rw same (record {
                other = cleared.other;
                above = λ i l. cleared.above i (omega arith);
                gone = λ i l. elim (Bool-cases (i == n)) [
                  | inl e ↦
                      ap (λ j. is_set (before root j) present) (==→eq i n e)
                      ∙ ap (λ x. is_set x present) here
                      ∙ off
                  | inr e ↦ cleared.gone i (ground (arith, e))
                ];
              }),
              ap (λ x. x.1) same
                  ∙ so_far
                  ∙ ap (given give_back h) (sym (below-absent m 2 root n none_there)),
            )
        | inl on ↦
            let linked : links (m root n) ≡ true = ground (arith, on, small n (omega arith)) in
            let c : ℕ = points_to (m root n) in
            let deep : rank c ≡ suc (rank root) = tr.deeper root n (omega (arith, top)) lt linked in
            let step = free_slots-present m root n h (ap (λ e. is_set e present) here ∙ on) in
            (
              rw step (record {
                other =
                    λ a i ne. stored_other before root n 0 a i (λ p _. ne p) ∙ cleared.other a i ne;
                above = λ i l.
                    stored_other before root n 0 root i (λ _ p. omega (arith, p))
                    ∙ cleared.above i (omega arith);
                gone = λ i l. elim (Bool-cases (i == n)) [
                  | inl e ↦
                      ap (λ j. is_set (stored before root n 0 root j) present) (==→eq i n e)
                      ∙ ap (λ x. is_set x present) (stored_same before root n 0)
                      ∙ is_set_zero
                  | inr e ↦
                      ap (λ x. is_set x present)
                        (stored_other before root n 0 root i (λ _ p. ==→ne i n e p))
                      ∙ cleared.gone i (ground (arith, e))
                ];
              }),
              ap (λ x. x.1) step
                  ∙ ap
                      (λ x.
                        hand_back give_back
                          (free_directories give_back before (points_to x) 512
                            (free_slots give_back m root n h).1)
                          (points_to x))
                      here
                  ∙ ap (λ x. hand_back give_back x c)
                      (free_directories_lem give_back before c 512
                          (free_slots give_back m root n h).1
                        ∙ ap (given give_back (free_slots give_back m root n h).1) (
                            below-same rank m before root tr top cleared.other 2 c 512
                              (omega (arith, deep)) (omega (arith, deep, top)) (omega arith))
                        ∙ ap (λ x. given give_back x (below m 2 c 512)) so_far)
                  ∙ sym (given_last give_back h (below m 3 root n) (below m 2 c 512) c)
                  ∙ ap (given give_back h) (sym (below-link m 2 root n linked)),
            )
      ]
