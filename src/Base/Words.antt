-- ===== src/Base/Words.antt =====
-- Rust's 64-bit arithmetic over the native numbers. `usize` is 64 bits wide on the target.
use Prim.Native.Nat.{ℕ, ◌+◌, ◌-◌, ◌*◌, ◌/◌, ◌%◌, ◌^◌, min}
use mathlib.Core.Option.{Option, none, some}
use aion_so.Base.Tests.{ltb, ◌==◌, if◌then◌else◌}

abbrev pub word_size : ℕ
word_size = 2 ^ 64

abbrev pub word_max : ℕ
word_max = 2 ^ 64 - 1

-- `+`, `-` and `*` keep what a release build computes: the low 64 bits.
abbrev pub add64 : ℕ → ℕ → ℕ
add64 a b = (a + b) % word_size

abbrev pub sub64 : ℕ → ℕ → ℕ
sub64 a b = (a + word_size - b) % word_size

abbrev pub mul64 : ℕ → ℕ → ℕ
mul64 a b = (a * b) % word_size

abbrev pub checked_add : ℕ → ℕ → Option ℕ
checked_add a b = if ltb (a + b) word_size then some (a + b) else none

abbrev pub saturating_add : ℕ → ℕ → ℕ
saturating_add a b = min (a + b) word_max

abbrev pub saturating_mul : ℕ → ℕ → ℕ
saturating_mul a b = min (a * b) word_max

-- `saturating_sub` is `-` on ℕ.
abbrev pub div_ceil : ℕ → ℕ → ℕ
div_ceil a b = if a % b == 0 then a / b else a / b + 1

-- The smallest multiple of `b` that is at least `a`, if it fits a word.
abbrev pub checked_next_multiple_of : ℕ → ℕ → Option ℕ
checked_next_multiple_of a b = if a % b == 0 then some a else checked_add a (b - a % b)
