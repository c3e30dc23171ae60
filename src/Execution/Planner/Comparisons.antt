-- ===== src/Execution/Planner/Comparisons.antt =====
-- src/execution/planner.cpp: what the comparisons of WHERE have to do with each other.
use curiodb.Prelude.{◌≡◌, ◌∙◌, refl, Bool, true, false, not, ◌||◌, ◌&&◌, arith}
use curiodb.Types.{Value, is_null}
use curiodb.Types.Order.{value_eq, is_lt, is_gt, is_lteq, is_gteq, compare-value_eq, compare-flip}
use curiodb.Sql.Ast.{ComparisonOperator}
use curiodb.Execution.Planner.Defs.{matches, compares, is_null_test, is_not_null_test}

-- The operator that holds where another does not, and the one that holds of the values swapped.
unfoldable pub swapped : ComparisonOperator → ComparisonOperator
swapped ComparisonOperator.less_than = ComparisonOperator.greater_than
swapped ComparisonOperator.less_than_or_equal = ComparisonOperator.greater_than_or_equal
swapped ComparisonOperator.greater_than = ComparisonOperator.less_than
swapped ComparisonOperator.greater_than_or_equal = ComparisonOperator.less_than_or_equal
swapped operation = operation

-- Whether an operator compares two values, and does not ask for NULL.
unfoldable pub is_comparison : ComparisonOperator → Bool
unfolding is_null_test is_not_null_test
is_comparison operation = not (is_null_test operation || is_not_null_test operation)

value_eq-sym : (a b : Value) → is_null a ≡ false → is_null b ≡ false → value_eq a b ≡ value_eq b a
value_eq-sym a b ha hb =
    let one : (is_null a && is_null b) ≡ false = ground arith in
    let two : (is_null b && is_null a) ≡ false = ground arith in
    ground (arith, compare-value_eq a b one, compare-value_eq b a two, compare-flip a b)

compares-swapped :
    (operation : ComparisonOperator) (left right : Value)
    → is_null left ≡ false
    → is_null right ≡ false
    → compares operation left right ≡ compares (swapped operation) right left
unfolding compares swapped is_lt is_gt is_lteq is_gteq
compares-swapped ComparisonOperator.equal left right hl hr = value_eq-sym left right hl hr
compares-swapped ComparisonOperator.not_equal left right hl hr =
    rw (value_eq-sym left right hl hr) refl
compares-swapped ComparisonOperator.is_null left right hl hr = refl
compares-swapped ComparisonOperator.is_not_null left right hl hr = refl
compares-swapped ComparisonOperator.less_than left right hl hr =
    ground (arith, compare-flip left right)
compares-swapped ComparisonOperator.less_than_or_equal left right hl hr =
    ground (arith, compare-flip left right)
compares-swapped ComparisonOperator.greater_than left right hl hr =
    ground (arith, compare-flip left right)
compares-swapped ComparisonOperator.greater_than_or_equal left right hl hr =
    ground (arith, compare-flip left right)

compares-exclusive :
    (left right : Value)
    → is_null left ≡ false
    → (compares ComparisonOperator.less_than_or_equal left right ≡ (
        compares ComparisonOperator.less_than left right
        || compares ComparisonOperator.equal left right))
      × (((compares ComparisonOperator.less_than left right
              && compares ComparisonOperator.equal left right)
            ≡ false)
          × ((compares ComparisonOperator.less_than left right
                && compares ComparisonOperator.greater_than left right)
              ≡ false))
unfolding compares is_lt is_gt is_lteq
compares-exclusive left right hl =
    let one : (is_null left && is_null right) ≡ false = ground arith in
    ground (arith, compare-value_eq left right one)

is_comparison-swapped :
    (operation : ComparisonOperator) → is_comparison (swapped operation) ≡ is_comparison operation
unfolding is_comparison swapped is_null_test is_not_null_test
is_comparison-swapped operation = ground arith

matches-compares :
    (operation : ComparisonOperator) (left right : Value)
    → is_comparison operation ≡ true
    → matches left operation right
      ≡ (not (is_null left || is_null right) && compares operation left right)
unfolding matches is_comparison
matches-compares operation left right h = ground arith

-- A comparison other than IS NULL and IS NOT NULL never holds where a value is NULL, and says of two
-- values what the operator that is read the other way round says of them swapped.
pub matches-swapped :
    (operation : ComparisonOperator) (left right : Value)
    → is_comparison operation ≡ true
    → (((is_null left || is_null right) && matches left operation right) ≡ false)
      × (matches left operation right ≡ matches right (swapped operation) left)
matches-swapped operation left right h = ground (
  arith,
  matches-compares operation left right h,
  matches-compares (swapped operation) right left (is_comparison-swapped operation ∙ h),
  compares-swapped operation left right,
)

-- Of two values, `<=` holds just where `<` or `=` does, and of `<` and `=`, and of `<` and `>`, no
-- two hold.
pub matches-exclusive :
    (left right : Value)
    → (matches left ComparisonOperator.less_than_or_equal right ≡ (
        matches left ComparisonOperator.less_than right
        || matches left ComparisonOperator.equal right))
      × (((matches left ComparisonOperator.less_than right
              && matches left ComparisonOperator.equal right)
            ≡ false)
          × ((matches left ComparisonOperator.less_than right
                && matches left ComparisonOperator.greater_than right)
              ≡ false))
unfolding is_comparison is_null_test is_not_null_test
matches-exclusive left right = ground (
  arith,
  matches-compares ComparisonOperator.less_than_or_equal left right refl,
  matches-compares ComparisonOperator.less_than left right refl,
  matches-compares ComparisonOperator.greater_than left right refl,
  matches-compares ComparisonOperator.equal left right refl,
  compares-exclusive left right,
)
