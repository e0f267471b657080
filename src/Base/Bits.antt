-- ===== src/Base/Bits.antt =====
-- The bits of a word: `&`, `|` and `!` read one bit at a time.
use Prim.Native.Nat.{
  ℕ, zero, suc, ◌+◌, ◌-◌, ◌*◌, ◌/◌, ◌%◌, ◌^◌, ◌≤◌, ◌<◌, min, max, bit_and, bit_or, digits,
  bit_and-bitwise, bit_or-bitwise,
}
use mathlib.Core.Path.{◌≡◌, refl, ap, ◌∙◌}
use mathlib.Core.Bool.{Bool, false, not, ◌&&◌, ◌||◌}
use native.Mathlib.Nat.{le_refl, pow-suc, one-le-pow}
use native.Mathlib.Omega.{arith}
use aion_so.Base.Tests.{◌==◌}

-- Bit `j` of `w`.
unfoldable pub test_bit : ℕ → ℕ → Bool
test_bit w zero = w % 2 == 1
test_bit w (suc j) = test_bit (w / 2) j

pub test_bit-zero : (j : ℕ) → test_bit 0 j ≡ false
unfolding test_bit
test_bit-zero zero = refl
test_bit-zero (suc j) = test_bit-zero j

-- The native operations run over the binary digits on fuel that is at least the first number.
test_bit-or_digits :
    (n a b j : ℕ) → a ≤ n → test_bit (digits (λ y. y) max n a b) j ≡ (test_bit a j || test_bit b j)
unfolding test_bit
test_bit-or_digits zero zero b j h = ground (arith, test_bit-zero j)
test_bit-or_digits zero (suc a) b j h = absurd (omega arith)
test_bit-or_digits (suc n) zero b j h = ground (arith, test_bit-zero j)
test_bit-or_digits (suc n) (suc a) b zero h = ground arith
test_bit-or_digits (suc n) (suc a) b (suc j) h =
    let half : (digits (λ y. y) max n (suc a / 2) (b / 2) * 2 + max (suc a % 2) (b % 2)) / 2
        ≡ digits (λ y. y) max n (suc a / 2) (b / 2) =
      omega arith in
    ap (λ w. test_bit w j) half ∙ test_bit-or_digits n (suc a / 2) (b / 2) j (omega arith)

test_bit-and_digits :
    (n a b j : ℕ) → a ≤ n → test_bit (digits (λ y. 0) min n a b) j ≡ (test_bit a j && test_bit b j)
unfolding test_bit
test_bit-and_digits zero zero b j h = ground (arith, test_bit-zero j)
test_bit-and_digits zero (suc a) b j h = absurd (omega arith)
test_bit-and_digits (suc n) zero b j h = ground (arith, test_bit-zero j)
test_bit-and_digits (suc n) (suc a) b zero h = ground arith
test_bit-and_digits (suc n) (suc a) b (suc j) h =
    let half : (digits (λ y. 0) min n (suc a / 2) (b / 2) * 2 + min (suc a % 2) (b % 2)) / 2
        ≡ digits (λ y. 0) min n (suc a / 2) (b / 2) =
      omega arith in
    ap (λ w. test_bit w j) half ∙ test_bit-and_digits n (suc a / 2) (b / 2) j (omega arith)

pub test_bit-or : (a b j : ℕ) → test_bit (bit_or a b) j ≡ (test_bit a j || test_bit b j)
test_bit-or a b j = rw bit_or-bitwise (test_bit-or_digits a a b j (le_refl a))

pub test_bit-and : (a b j : ℕ) → test_bit (bit_and a b) j ≡ (test_bit a j && test_bit b j)
test_bit-and a b j = rw bit_and-bitwise (test_bit-and_digits a a b j (le_refl a))

-- A mask of one bit.
pub test_bit-pow : (k j : ℕ) → test_bit (2 ^ k) j ≡ (k == j)
unfolding test_bit
test_bit-pow zero zero = refl
test_bit-pow zero (suc j) = ground (arith, test_bit-zero j)
test_bit-pow (suc k) zero = ground (arith, pow-suc 2 k)
test_bit-pow (suc k) (suc j) =
    let half : 2 ^ suc k / 2 ≡ 2 ^ k = omega (arith, pow-suc 2 k) in
    ap (λ w. test_bit w j) half ∙ ground (arith, test_bit-pow k j)

-- `!m` on `n` bits.
pub test_bit-not : (n m j : ℕ) → m < 2 ^ n → j < n → test_bit (2 ^ n - 1 - m) j ≡ not (test_bit m j)
unfolding test_bit
test_bit-not zero m j h lt = absurd (omega arith)
test_bit-not (suc n) m zero h lt = ground (arith, pow-suc 2 n, one-le-pow n 2)
test_bit-not (suc n) m (suc j) h lt =
    let half : (2 ^ suc n - 1 - m) / 2 ≡ 2 ^ n - 1 - m / 2 =
      omega (arith, pow-suc 2 n, one-le-pow n 2) in
    ap (λ w. test_bit w j) half
    ∙ test_bit-not n (m / 2) j (omega (arith, pow-suc 2 n)) (omega arith)
