-- ===== src/Types/Double.antt =====
-- Comparison of doubles by their 64-bit patterns, as IEEE 754 has it: a NaN is unordered, and the two
-- zeros are equal.
use curiodb.Prelude.{ℕ, ◌-◌, ◌*◌, ◌^◌, ◌/◌, ◌%◌, Bool, false, ◌||◌, ltb, ◌==◌, if◌then◌else◌}
use curiodb.Prelude.Int.{ℤ, pos, negsuc, int_eq, int_lt}

-- `std::partial_ordering`
pub data PartialOrdering : Type 0 where
  less equivalent greater unordered : PartialOrdering

unfoldable pub int_compare : ℤ → ℤ → PartialOrdering
int_compare a b =
    if int_eq a b
    then PartialOrdering.equivalent
    else if int_lt a b
    then PartialOrdering.less
    else PartialOrdering.greater

unfoldable pub is_nan : ℕ → Bool
is_nan d = ltb (2047 * 2 ^ 52) (d % 2 ^ 63)

-- The pattern's place in the order of the numbers that are no NaN.
unfoldable pub double_key : ℕ → ℤ
double_key d =
    if d / 2 ^ 63 == 0
    then pos (d % 2 ^ 63)
    else if d % 2 ^ 63 == 0
    then pos 0
    else negsuc (d % 2 ^ 63 - 1)

unfoldable pub double_compare : ℕ → ℕ → PartialOrdering
unfolding is_nan double_key
double_compare a b =
    if is_nan a || is_nan b
    then PartialOrdering.unordered
    else int_compare (double_key a) (double_key b)

unfoldable pub double_eq : ℕ → ℕ → Bool
unfolding is_nan double_key
double_eq a b = if is_nan a || is_nan b then false else int_eq (double_key a) (double_key b)
