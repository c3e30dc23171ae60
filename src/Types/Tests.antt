-- ===== src/Types/Tests.antt =====
-- src/types/value.cpp: the theorems at values, and runs of the code.
use curiodb.Prelude.{ℕ, ◌+◌, ◌*◌, ◌^◌, ◌≡◌, true, refl, some, none}
use curiodb.Prelude.Int.{pos, negsuc, int_eq, int_lt}
use curiodb.Prelude.Text.{text, decimal, decimal_int}
use curiodb.Types.{Value, to_string, format_data_type, DataTypeKind}
use curiodb.Types.Double.{less, unordered, int_compare, double_compare, double_eq}
use curiodb.Types.Order.{compare, value_eq, flip, compare-flip, text_compare}

-- The pattern of 1.0.
abbrev one : ℕ
one = 1023 * 2 ^ 52

abbrev not_a_number : ℕ
not_a_number = 2047 * 2 ^ 52 + 1

compare-flip_example :
    compare (Value.integer (negsuc 3)) (Value.integer (pos 2))
    ≡ flip (compare (Value.integer (pos 2)) (Value.integer (negsuc 3)))
compare-flip_example = compare-flip (Value.integer (pos 2)) (Value.integer (negsuc 3))

zeros_equal : value_eq (Value.double 0) (Value.double (2 ^ 63)) ≡ true
unfolding value_eq double_eq int_eq
zeros_equal = refl

nan_unordered : compare (Value.double not_a_number) (Value.double one) ≡ unordered
unfolding compare double_compare
nan_unordered = refl

minus_one_less : compare (Value.double (one + 2 ^ 63)) (Value.double one) ≡ less
unfolding compare double_compare int_compare int_eq int_lt
minus_one_less = refl

prefix_less : compare (Value.varchar (text "ab")) (Value.varchar (text "abc")) ≡ less
unfolding compare text_compare text
prefix_less = refl

types_differ : compare (Value.integer (pos 1)) (Value.double one) ≡ unordered
unfolding compare
types_differ = refl

number_shown : to_string (λ d. none) (Value.integer (negsuc 41)) ≡ text "-42"
unfolding to_string decimal_int decimal text
number_shown = refl

type_shown :
    format_data_type (record { kind = DataTypeKind.varchar; length = some 150 })
    ≡ text "VARCHAR(150)"
unfolding format_data_type decimal text
type_shown = refl
