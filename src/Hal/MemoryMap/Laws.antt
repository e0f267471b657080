-- ===== src/Hal/MemoryMap/Laws.antt =====
-- The map keeps the regions it accepted in order, and says when one was dropped.
use aion_so.Base.{
  ℕ, zero, suc, ◌≤◌, ◌<◌, ◌≡◌, refl, ap, true, false, List, [], ◌∷◌, ◌++◌, arith, length, set, take,
  length-set, ◌⊎◌,
}
use aion_so.Hal.MemoryMap.{MemoryMap, MemoryRegion, capacity, new, push, iter, is_complete}

pub record IsValid (m : MemoryMap) : Type 0 where
  pub whole : length m.regions ≡ capacity
  pub within : m.len ≤ capacity

pub new-IsValid : IsValid new
unfolding new
new-IsValid = record { whole = refl; within = omega arith }

pub take-set_end {ℓ} :
    {A : Type ℓ} (xs : List A) (n : ℕ) (v : A)
    → n < length xs
    → take (suc n) (set xs n v) ≡ take n xs ++ v ∷ []
take-set_end [] n v h = absurd (omega arith)
take-set_end (x ∷ xs) zero v h = refl
take-set_end (x ∷ xs) (suc n) v h = ap (◌∷◌ x) (take-set_end xs n v (omega arith))

-- A push with room left appends the region to those already there, and a push at capacity changes
-- none of them and marks the map incomplete. Either way the map stays valid.
pub push_lem :
    (m : MemoryMap) (r : MemoryRegion)
    → IsValid m
    → let (m', added) = push m r in
      IsValid m'
      × ((m.len < capacity)
            × (added ≡ true)
            × (iter m' ≡ iter m ++ r ∷ [])
            × (is_complete m' ≡ is_complete m)
          ⊎ (m.len ≡ capacity) × (added ≡ false) × (iter m' ≡ iter m) × (is_complete m' ≡ false))
unfolding push iter is_complete
push_lem m r v = ground (arith, length-set m.regions m.len r, take-set_end m.regions m.len r)
