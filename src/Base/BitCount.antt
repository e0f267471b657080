-- ===== src/Base/BitCount.antt =====
-- `u64::count_zeros` and `u64::trailing_zeros`, and what one flipped bit does to them.
use Prim.Native.Nat.{ℕ, zero, suc, ◌+◌, ◌-◌, ◌/◌, ◌%◌, ◌^◌, ◌≤◌, ◌<◌, bit_and, bit_or}
use mathlib.Core.Path.{◌≡◌, refl, ap}
use mathlib.Core.Logic.{◌≢◌, inl, inr}
use mathlib.Core.Bool.{true, false, not, ◌&&◌, ◌||◌}
use native.Mathlib.Nat.{pow-suc}
use native.Mathlib.Omega.{arith}
use aion_so.Base.Tests.{◌==◌, ltb, ltb→lt, ltb→le, ==→eq, if◌then◌else◌, Bool-cases}
use aion_so.Base.Bits.{
  test_bit, test_bit-zero, test_bit-or, test_bit-and, test_bit-pow, test_bit-not,
}

-- Over the `n` low bits.
unfoldable pub count_zeros : ℕ → ℕ → ℕ
count_zeros zero w = 0
count_zeros (suc n) w = (if w % 2 == 1 then 0 else 1) + count_zeros n (w / 2)

unfoldable pub trailing_zeros : ℕ → ℕ → ℕ
trailing_zeros zero w = 0
trailing_zeros (suc n) w = if w % 2 == 1 then 0 else suc (trailing_zeros n (w / 2))

zero_of_bits_fuel : (n w : ℕ) → w ≤ n → ((j : ℕ) → test_bit w j ≡ false) → w ≡ 0
unfolding test_bit
zero_of_bits_fuel zero w h c = omega arith
zero_of_bits_fuel (suc n) w h c = elim (Bool-cases (w == 0)) [
  | inl e ↦ ground arith
  | inr e ↦
      let half : w / 2 ≡ 0 = zero_of_bits_fuel n (w / 2) (ground arith) (λ j. c (suc j)) in
      ground (arith, c 0, half)
]

pub zero_of_bits : (w : ℕ) → ((j : ℕ) → test_bit w j ≡ false) → w ≡ 0
zero_of_bits w c = zero_of_bits_fuel w w (omega arith) c

pub lt_of_bits : (n w : ℕ) → ((j : ℕ) → n ≤ j → test_bit w j ≡ false) → w < 2 ^ n
unfolding test_bit
lt_of_bits zero w c = omega (arith, zero_of_bits w (λ j. c j (omega arith)))
lt_of_bits (suc n) w c =
    omega (arith, pow-suc 2 n, lt_of_bits n (w / 2) (λ j h. c (suc j) (omega arith)))

pub test_bit_above : (n w j : ℕ) → w < 2 ^ n → n ≤ j → test_bit w j ≡ false
unfolding test_bit
test_bit_above zero w j h le = let e : w ≡ 0 = omega arith in rw e (test_bit-zero j)
test_bit_above (suc n) w zero h le = absurd (omega arith)
test_bit_above (suc n) w (suc j) h le =
    test_bit_above n (w / 2) j (omega (arith, pow-suc 2 n)) (omega arith)

-- `w & (1 << k) != 0` reads bit `k`.
pub and-pow : (w k : ℕ) → not (bit_and w (2 ^ k) == 0) ≡ test_bit w k
and-pow w k = elim (Bool-cases (test_bit w k)) [
  | inl on ↦ elim (Bool-cases (bit_and w (2 ^ k) == 0)) [
    | inl e ↦
        let z : bit_and w (2 ^ k) ≡ 0 = ==→eq _ _ e in
        ground (
          arith,
          on,
          test_bit-and w (2 ^ k) k,
          test_bit-pow k k,
          ap (λ v. test_bit v k) z,
          test_bit-zero k,
        )
    | inr e ↦ rw (e, on)
  ]
  | inr off ↦
      let z : bit_and w (2 ^ k) ≡ 0 = zero_of_bits _ λ j.
        ground
          (arith, test_bit-and w (2 ^ k) j, test_bit-pow k j, ap (test_bit w) {x = k} {y = j}) in
      rw (z, off)
]

count_zeros_congr :
    (n v w : ℕ) → ((j : ℕ) → test_bit v j ≡ test_bit w j) → count_zeros n v ≡ count_zeros n w
unfolding count_zeros test_bit
count_zeros_congr zero v w c = refl
count_zeros_congr (suc n) v w c =
    ground (arith, c 0, count_zeros_congr n (v / 2) (w / 2) (λ j. c (suc j)))

-- One more set bit is one zero fewer.
pub count_zeros-flip :
    (n k v w : ℕ)
    → k < n
    → ((j : ℕ) → test_bit w j ≡ (k == j || test_bit v j))
    → test_bit v k ≡ false
    → count_zeros n w + 1 ≡ count_zeros n v
unfolding count_zeros test_bit
count_zeros-flip zero k v w h c off = absurd (omega arith)
count_zeros-flip (suc n) zero v w h c off =
    let rest : count_zeros n (w / 2) ≡ count_zeros n (v / 2) =
      count_zeros_congr n (w / 2) (v / 2) (λ j. ground (arith, c (suc j))) in
    ground (arith, c 0, rest)
count_zeros-flip (suc n) (suc k) v w h c off =
    let rest : count_zeros n (w / 2) + 1 ≡ count_zeros n (v / 2) =
      count_zeros-flip n k (v / 2) (w / 2) (omega arith) (λ j. ground (arith, c (suc j))) off in
    ground (arith, c 0, rest)

pub count_zeros-le : (n w : ℕ) → count_zeros n w ≤ n
unfolding count_zeros
count_zeros-le zero w = omega arith
count_zeros-le (suc n) w = ground (arith, count_zeros-le n (w / 2))

-- A word that is not zero has its first set bit there.
pub trailing_zeros_lem :
    (n w : ℕ)
    → w < 2 ^ n
    → w ≢ 0
    → (trailing_zeros n w < n) × (test_bit w (trailing_zeros n w) ≡ true)
unfolding trailing_zeros test_bit
trailing_zeros_lem zero w h ne = absurd (ne (omega arith))
trailing_zeros_lem (suc n) w h ne = elim (Bool-cases (w % 2 == 1)) [
  | inl odd ↦ rw odd (omega arith, odd)
  | inr even ↦
      let rest : (trailing_zeros n (w / 2) < n)
          × (test_bit (w / 2) (trailing_zeros n (w / 2)) ≡ true) =
        trailing_zeros_lem n (w / 2) (omega (arith, pow-suc 2 n)) (λ e. ne (ground arith)) in
      rw even (omega arith, rest.1)
]

-- `w | (1 << k)` and `w & !(1 << k)` on 64 bits.
pub test_bit-set : (w k j : ℕ) → test_bit (bit_or w (2 ^ k)) j ≡ (k == j || test_bit w j)
test_bit-set w k j = ground (arith, test_bit-or w (2 ^ k) j, test_bit-pow k j)

pow_lt_word : (k n : ℕ) → k < n → 2 ^ k < 2 ^ n
pow_lt_word k n h = lt_of_bits n (2 ^ k) (λ j le. ground (arith, test_bit-pow k j))

pub test_bit-clear :
    (w k j : ℕ)
    → w < 2 ^ 64
    → k < 64
    → test_bit (bit_and w (2 ^ 64 - 1 - 2 ^ k)) j ≡ (not (k == j) && test_bit w j)
test_bit-clear w k j h hk = elim (Bool-cases (ltb j 64)) [
  | inl low ↦ ground (
    arith,
    test_bit-and w (2 ^ 64 - 1 - 2 ^ k) j,
    test_bit-not 64 (2 ^ k) j (pow_lt_word k 64 hk) (ltb→lt j 64 low),
    test_bit-pow k j,
  )
  | inr high ↦
      ground
        (arith, test_bit-and w (2 ^ 64 - 1 - 2 ^ k) j, test_bit_above 64 w j h (ltb→le j 64 high))
]

pub set-lt-word : (w k : ℕ) → w < 2 ^ 64 → k < 64 → bit_or w (2 ^ k) < 2 ^ 64
set-lt-word w k h hk =
    lt_of_bits 64 _ (λ j le. ground (arith, test_bit-set w k j, test_bit_above 64 w j h le))

pub clear-lt-word : (w k : ℕ) → w < 2 ^ 64 → k < 64 → bit_and w (2 ^ 64 - 1 - 2 ^ k) < 2 ^ 64
clear-lt-word w k h hk =
    lt_of_bits 64 _ (λ j le. ground (arith, test_bit-clear w k j h hk, test_bit_above 64 w j h le))

-- The first clear bit of a word with one, by way of `(!w).trailing_zeros()`.
pub first_clear :
    (w : ℕ)
    → w < 2 ^ 64
    → w ≢ 2 ^ 64 - 1
    → let k = trailing_zeros 64 (2 ^ 64 - 1 - w) in (k < 64) × (test_bit w k ≡ false)
first_clear w h ne =
    let found : (trailing_zeros 64 (2 ^ 64 - 1 - w) < 64)
        × (test_bit (2 ^ 64 - 1 - w) (trailing_zeros 64 (2 ^ 64 - 1 - w)) ≡ true) =
      trailing_zeros_lem 64 (2 ^ 64 - 1 - w) (omega arith) (omega arith) in
    (
      found.0,
      ground (arith, found, test_bit-not 64 w (trailing_zeros 64 (2 ^ 64 - 1 - w)) h found.0),
    )
