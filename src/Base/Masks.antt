-- ===== src/Base/Masks.antt =====
-- Masks: the low bits of a word, the bits of an aligned number, and numbers compared bit by bit.
use Prim.Native.Nat.{ℕ, zero, suc, ◌+◌, ◌-◌, ◌*◌, ◌/◌, ◌%◌, ◌^◌, ◌≤◌, ◌<◌, bit_and}
use mathlib.Core.Path.{◌≡◌, sym, ap, ◌∙◌}
use mathlib.Core.Bool.{false, ◌&&◌}
use native.Mathlib.Nat.{
  pow-suc, pow-succ', one-le-pow, div-add-mod, mul-add-mod_self_left, mod-eq_of_lt, mod-lt,
}
use native.Mathlib.Omega.{arith}
use aion_so.Base.Tests.{ltb}
use aion_so.Base.Bits.{test_bit, test_bit-zero, test_bit-and}
use aion_so.Base.BitCount.{zero_of_bits}

eq_of_bits_fuel : (n v w : ℕ) → v ≤ n → ((j : ℕ) → test_bit v j ≡ test_bit w j) → v ≡ w
unfolding test_bit
eq_of_bits_fuel zero v w h c =
    let z : v ≡ 0 = omega arith in
    z ∙ sym (zero_of_bits w (λ j. sym (c j) ∙ ap (λ u. test_bit u j) z ∙ test_bit-zero j))
eq_of_bits_fuel (suc n) v w h c =
    ground (arith, c 0, eq_of_bits_fuel n (v / 2) (w / 2) (omega arith) (λ j. c (suc j)))

pub eq_of_bits : (v w : ℕ) → ((j : ℕ) → test_bit v j ≡ test_bit w j) → v ≡ w
eq_of_bits v w c = eq_of_bits_fuel v v w (omega arith) c

pub test_bit-ones : (n j : ℕ) → test_bit (2 ^ n - 1) j ≡ ltb j n
unfolding test_bit
test_bit-ones zero j = ground (arith, test_bit-zero j)
test_bit-ones (suc n) zero = ground (arith, pow-suc 2 n, one-le-pow n 2)
test_bit-ones (suc n) (suc j) =
    let half : (2 ^ suc n - 1) / 2 ≡ 2 ^ n - 1 = omega (arith, pow-suc 2 n, one-le-pow n 2) in
    ap (λ w. test_bit w j) half ∙ ground (arith, test_bit-ones n j)

half-mod : (p w : ℕ) → 0 < p → (w % (2 * p)) / 2 ≡ (w / 2) % p
half-mod p w h =
    let low : w % (2 * p) < 2 * p = mod-lt w (omega arith) in
    let whole : 2 * p * (w / (2 * p)) + w % (2 * p) ≡ w = div-add-mod w (2 * p) in
    let half : w / 2 ≡ p * (w / (2 * p)) + w % (2 * p) / 2 = omega (arith, whole) in
    sym (
      ap (λ v. v % p) half
      ∙ mul-add-mod_self_left p (w / (2 * p)) (w % (2 * p) / 2)
      ∙ mod-eq_of_lt (omega (arith, low)))

parity-mod : (p w : ℕ) → 0 < p → (w % (2 * p)) % 2 ≡ w % 2
parity-mod p w h = omega (arith, div-add-mod w (2 * p))

pub test_bit-mod : (n w j : ℕ) → test_bit (w % 2 ^ n) j ≡ (ltb j n && test_bit w j)
unfolding test_bit
test_bit-mod zero w j = ground (arith, test_bit-zero j)
test_bit-mod (suc n) w zero =
    ground (arith, pow-succ' 2 n, parity-mod (2 ^ n) w (one-le-pow n 2 (omega arith)))
test_bit-mod (suc n) w (suc j) =
    let half : (w % 2 ^ suc n) / 2 ≡ w / 2 % 2 ^ n =
      rw (pow-succ' 2 n) (half-mod (2 ^ n) w (one-le-pow n 2 (omega arith))) in
    ap (λ v. test_bit v j) half ∙ ground (arith, test_bit-mod n (w / 2) j)

-- `w & (2 ^ n - 1)`
pub and-ones : (n w : ℕ) → bit_and w (2 ^ n - 1) ≡ w % 2 ^ n
and-ones n w =
    eq_of_bits _ _
      λ j. ground (arith, test_bit-and w (2 ^ n - 1) j, test_bit-ones n j, test_bit-mod n w j)

pub test_bit-aligned : (n w j : ℕ) → w % 2 ^ n ≡ 0 → j < n → test_bit w j ≡ false
test_bit-aligned n w j a h =
    ground (arith, ap (λ v. test_bit v j) a, test_bit-mod n w j, test_bit-zero j)
