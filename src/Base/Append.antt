-- ===== src/Base/Append.antt =====
-- Reading one of two lists that stand one after the other.
use aion_so.Base.Lists.{length, take, drop, get_or}
use Prim.Native.Nat.{ℕ, zero, suc, ◌+◌, ◌≤◌, ◌<◌}
use mathlib.Core.Path.{◌≡◌, refl, ap}
use mathlib.Core.List.{List, [], ◌∷◌, ◌++◌}
use native.Mathlib.Omega.{arith}

pub take-append_length : (xs ys : List ℕ) (n : ℕ) → length xs ≡ n → take n (xs ++ ys) ≡ xs
take-append_length [] ys n e = let z : n ≡ 0 = omega (arith, e) in rw z refl
take-append_length (x ∷ xs) ys zero e = absurd (omega (arith, e))
take-append_length (x ∷ xs) ys (suc n) e =
    ap (λ l. x ∷ l) (take-append_length xs ys n (omega (arith, e)))

pub drop-append_length : (xs ys : List ℕ) (n : ℕ) → length xs ≡ n → drop n (xs ++ ys) ≡ ys
drop-append_length [] ys n e = let z : n ≡ 0 = omega (arith, e) in rw z refl
drop-append_length (x ∷ xs) ys zero e = absurd (omega (arith, e))
drop-append_length (x ∷ xs) ys (suc n) e = drop-append_length xs ys n (omega (arith, e))

pub get_or-append_length :
    (xs ys : List ℕ) (n : ℕ) → length xs ≡ n → get_or (xs ++ ys) n 0 ≡ get_or ys 0 0
get_or-append_length [] ys n e = let z : n ≡ 0 = omega (arith, e) in rw z refl
get_or-append_length (x ∷ xs) ys zero e = absurd (omega (arith, e))
get_or-append_length (x ∷ xs) ys (suc n) e = get_or-append_length xs ys n (omega (arith, e))

pub take_whole : (n : ℕ) (xs : List ℕ) → length xs ≤ n → take n xs ≡ xs
take_whole zero [] h = refl
take_whole zero (x ∷ xs) h = absurd (omega arith)
take_whole (suc n) [] h = refl
take_whole (suc n) (x ∷ xs) h = ap (λ l. x ∷ l) (take_whole n xs (omega arith))

pub get_or-append_left :
    (xs ys : List ℕ) (n : ℕ) → n < length xs → get_or (xs ++ ys) n 0 ≡ get_or xs n 0
get_or-append_left [] ys n h = absurd (omega arith)
get_or-append_left (x ∷ xs) ys zero h = refl
get_or-append_left (x ∷ xs) ys (suc n) h = get_or-append_left xs ys n (omega arith)

pub get_or-append_right :
    (xs ys : List ℕ) (n k : ℕ) → length xs ≡ n → get_or (xs ++ ys) (n + k) 0 ≡ get_or ys k 0
get_or-append_right [] ys n k h = let e : n + k ≡ k = omega (arith, h) in rw e refl
get_or-append_right (x ∷ xs) ys zero k h = absurd (omega (arith, h))
get_or-append_right (x ∷ xs) ys (suc n) k h =
    let e : suc n + k ≡ suc (n + k) = omega arith in
    rw e (get_or-append_right xs ys n k (omega (arith, h)))

pub take-append_left : (xs ys : List ℕ) (n : ℕ) → n ≤ length xs → take n (xs ++ ys) ≡ take n xs
take-append_left xs ys zero h = refl
take-append_left [] ys (suc n) h = absurd (omega arith)
take-append_left (x ∷ xs) ys (suc n) h = ap (λ l. x ∷ l) (take-append_left xs ys n (omega arith))

pub drop-append_left :
    (xs ys : List ℕ) (n : ℕ) → n ≤ length xs → drop n (xs ++ ys) ≡ drop n xs ++ ys
drop-append_left xs ys zero h = refl
drop-append_left [] ys (suc n) h = absurd (omega arith)
drop-append_left (x ∷ xs) ys (suc n) h = drop-append_left xs ys n (omega arith)
