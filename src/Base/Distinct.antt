-- ===== src/Base/Distinct.antt =====
-- Lists of numbers in which none stands twice.
use Prim.Native.Nat.{ℕ}
use mathlib.Core.Path.{◌≡◌}
use mathlib.Core.Logic.{◌≢◌, ◌⊎◌, inl, inr}
use mathlib.Core.List.{List, [], ◌∷◌, ◌++◌}

unfoldable pub Among : List ℕ → ℕ → Type 0
Among [] a = ⊥
Among (x ∷ xs) a = (a ≡ x) ⊎ Among xs a

unfoldable pub Distinct : List ℕ → Type 0
Distinct [] = Unit
Distinct (x ∷ xs) = ((a : ℕ) → Among xs a → a ≢ x) × Distinct xs

pub Among-++ : (xs ys : List ℕ) (a : ℕ) → Among (xs ++ ys) a → Among xs a ⊎ Among ys a
unfolding Among
Among-++ [] ys a h = inr h
Among-++ (x ∷ xs) ys a (inl e) = inl (inl e)
Among-++ (x ∷ xs) ys a (inr h) = elim (Among-++ xs ys a h) [ inl p ↦ inl (inr p) | inr p ↦ inr p ]

pub Among-left : (xs ys : List ℕ) (a : ℕ) → Among xs a → Among (xs ++ ys) a
unfolding Among
Among-left [] ys a h = absurd h
Among-left (x ∷ xs) ys a (inl e) = inl e
Among-left (x ∷ xs) ys a (inr h) = inr (Among-left xs ys a h)

pub Among-right : (xs ys : List ℕ) (a : ℕ) → Among ys a → Among (xs ++ ys) a
unfolding Among
Among-right [] ys a h = h
Among-right (x ∷ xs) ys a h = inr (Among-right xs ys a h)

pub Distinct-++ :
    (xs ys : List ℕ)
    → Distinct xs
    → Distinct ys
    → ((a : ℕ) → Among xs a → ¬ (Among ys a))
    → Distinct (xs ++ ys)
unfolding Among Distinct
Distinct-++ [] ys dx dy apart = dy
Distinct-++ (x ∷ xs) ys dx dy apart = (
  (λ a h e. elim (Among-++ xs ys a h) [ inl p ↦ dx.0 a p e | inr p ↦ apart a (inl e) p ]),
  Distinct-++ xs ys dx.1 dy (λ a p q. apart a (inr p) q),
)
