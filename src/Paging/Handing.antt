-- ===== src/Paging/Handing.antt =====
-- arch/x86_64/src/paging.rs: the two inner loops of `free_lower_half` hand back a list of tables.
use aion_so.Base.{
  ℕ, zero, suc, ◌≡◌, refl, sym, ap, ◌∙◌, Bool, true, false, not, ◌||◌, List, [], ◌∷◌, ◌++◌, arith,
  inl, inr, Bool-cases,
}
use aion_so.Hal.Frame.{PhysFrame}
use aion_so.Paging.Entries.{is_set, present, huge}
use aion_so.Paging.Tree.{Entries, links, points_to}
use aion_so.Paging.Below.{below, below-absent, below-link}
use aion_so.Paging.Freeing.{Freed, hand_back, free_page_tables, free_directories}

passed_over : (e : ℕ) → (not (is_set e present) || is_set e huge) ≡ not (links e)
passed_over e = ground arith

module _ {G : Type 0} (give_back : G → PhysFrame → G × Bool) where
  -- The frames are handed back in the order of the list.
  unfoldable pub given : Freed G → List ℕ → Freed G
  given h [] = h
  given h (a ∷ xs) = given (hand_back give_back h a) xs

  pub given-++ : (h : Freed G) (xs ys : List ℕ) → given h (xs ++ ys) ≡ given (given h xs) ys
  unfolding given
  given-++ h [] ys = refl
  given-++ h (a ∷ xs) ys = given-++ (hand_back give_back h a) xs ys

  free_page_tables_lem :
      (m : Entries) (d n : ℕ) (h : Freed G)
      → free_page_tables give_back m d n h ≡ given h (below m 1 d n)
  unfolding free_page_tables given below
  free_page_tables_lem m d zero h = refl
  free_page_tables_lem m d (suc n) h = elim (Bool-cases (links (m d n))) [
    | inr off ↦ rw (passed_over (m d n), off) (free_page_tables_lem m d n h)
    | inl on ↦
        rw (passed_over (m d n), on)
          (ap (λ x. hand_back give_back x (points_to (m d n))) (free_page_tables_lem m d n h)
            ∙ sym (given-++ h (below m 1 d n) (points_to (m d n) ∷ [])))
  ]

  free_directories-absent :
      (m : Entries) (p n : ℕ) (h : Freed G)
      → links (m p n) ≡ false
      → free_directories give_back m p (suc n) h ≡ free_directories give_back m p n h
  unfolding free_directories
  free_directories-absent m p n h off = rw (passed_over (m p n), off) refl

  free_directories-link :
      (m : Entries) (p n : ℕ) (h : Freed G)
      → links (m p n) ≡ true
      → free_directories give_back m p (suc n) h
        ≡ hand_back give_back
            (free_page_tables give_back m
              (points_to (m p n))
              512
              (free_directories give_back m p n h))
            (points_to (m p n))
  unfolding free_directories
  free_directories-link m p n h on = rw (passed_over (m p n), on) refl

  pub given_last :
      (h : Freed G) (xs ys : List ℕ) (c : ℕ)
      → given h (xs ++ (ys ++ c ∷ [])) ≡ hand_back give_back (given (given h xs) ys) c
  unfolding given
  given_last h xs ys c = given-++ h xs (ys ++ c ∷ []) ∙ given-++ (given h xs) ys (c ∷ [])

  free_directories_zero :
      (m : Entries) (p : ℕ) (h : Freed G)
      → free_directories give_back m p 0 h ≡ given h (below m 2 p 0)
  unfolding free_directories given below
  free_directories_zero m p h = refl

  pub free_directories_lem :
      (m : Entries) (p n : ℕ) (h : Freed G)
      → free_directories give_back m p n h ≡ given h (below m 2 p n)
  unfolding given
  free_directories_lem m p zero h = free_directories_zero m p h
  free_directories_lem m p (suc n) h = elim (Bool-cases (links (m p n))) [
    | inr off ↦
        free_directories-absent m p n h off
        ∙ free_directories_lem m p n h
        ∙ ap (given h) (sym (below-absent m 1 p n off))
    | inl on ↦
        let c : ℕ = points_to (m p n) in
        free_directories-link m p n h on
        ∙ ap (λ x. hand_back give_back x c)
            (free_page_tables_lem m c 512 (free_directories give_back m p n h)
              ∙ ap (λ x. given x (below m 1 c 512)) (free_directories_lem m p n h))
        ∙ sym (given_last h (below m 2 p n) (below m 1 c 512) c)
        ∙ ap (given h) (sym (below-link m 1 p n on))
  ]
