-- ===== src/Prelude/Int.antt =====
-- Signed integers over the native numbers, and the int64_t of the source: an integer in range, cast
-- to its 64 bits and back (`std::bit_cast`).
use Prim.Native.Nat.{ℕ, ◌-◌, ◌<◌, ◌^◌}
use mathlib.Core.Path.{◌≡◌}
use mathlib.Core.Logic.{◌↔◌}
use mathlib.Core.Bool.{Bool, true, false}
use native.Mathlib.Omega.{arith}
use curiodb.Prelude.Tests.{ltb, ◌==◌, if◌then◌else◌}

-- `negsuc n` is -(n + 1).
pub data ℤ : Type 0 where
  pos : ℕ → ℤ
  negsuc : ℕ → ℤ

abbrev pub IsI64 : ℤ → Type 0
IsI64 (pos n) = n < 2 ^ 63
IsI64 (negsuc n) = n < 2 ^ 63

unfoldable pub bits_of_i64 : ℤ → ℕ
bits_of_i64 (pos n) = n
bits_of_i64 (negsuc n) = 2 ^ 64 - 1 - n

unfoldable pub i64_of_bits : ℕ → ℤ
i64_of_bits b = if ltb b (2 ^ 63) then pos b else negsuc (2 ^ 64 - 1 - b)

pub i64_of_bits-bits_of_i64 : (z : ℤ) → IsI64 z → i64_of_bits (bits_of_i64 z) ≡ z
unfolding i64_of_bits bits_of_i64
i64_of_bits-bits_of_i64 (pos n) h = ground arith
i64_of_bits-bits_of_i64 (negsuc n) h = ground arith

pub bits_of_i64-i64_of_bits : (b : ℕ) → b < 2 ^ 64 → bits_of_i64 (i64_of_bits b) ≡ b
unfolding i64_of_bits bits_of_i64
bits_of_i64-i64_of_bits b h = ground arith

pub bits_of_i64-lt : (z : ℤ) → IsI64 z → bits_of_i64 z < 2 ^ 64
unfolding bits_of_i64
bits_of_i64-lt (pos n) h = omega arith
bits_of_i64-lt (negsuc n) h = omega arith

pub i64_of_bits-IsI64 : (b : ℕ) → b < 2 ^ 64 → IsI64 (i64_of_bits b)
unfolding i64_of_bits
i64_of_bits-IsI64 b h = ground arith

-- The order and the equality of the source's integers.
unfoldable pub int_eq : ℤ → ℤ → Bool
int_eq (pos a) (pos b) = a == b
int_eq (negsuc a) (negsuc b) = a == b
int_eq _ _ = false

unfoldable pub int_lt : ℤ → ℤ → Bool
int_lt (pos a) (pos b) = ltb a b
int_lt (pos a) (negsuc b) = false
int_lt (negsuc a) (pos b) = true
int_lt (negsuc a) (negsuc b) = ltb b a

pub int_eq_iff : (a b : ℤ) → (int_eq a b ≡ true) ↔ (a ≡ b)
unfolding int_eq
int_eq_iff (pos a) (pos b) = ground arith
int_eq_iff (pos a) (negsuc b) = ground arith
int_eq_iff (negsuc a) (pos b) = ground arith
int_eq_iff (negsuc a) (negsuc b) = ground arith
