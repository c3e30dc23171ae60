-- ===== src/Types/Order.antt =====
-- src/types/value.cpp: the order and the equality of values.
use curiodb.Prelude.{
  ◌&&◌, ℕ, Bool, true, false, List, [], ◌∷◌, ◌≡◌, ◌↔◌, refl, arith, ltb, if◌then◌else◌,
}
use curiodb.Prelude.Int.{ℤ, pos, negsuc, int_eq, int_lt}
use curiodb.Prelude.Text.{text_eq}
use curiodb.Types.Double.{
  PartialOrdering, less, equivalent, greater, unordered, int_compare, is_nan, double_key,
  double_compare, double_eq,
}
use curiodb.Types.{Value, is_null}

-- The bytes of two texts, in the order of `std::string`.
unfoldable pub text_compare : List ℕ → List ℕ → PartialOrdering
text_compare [] [] = equivalent
text_compare [] (b ∷ t) = less
text_compare (a ∷ s) [] = greater
text_compare (a ∷ s) (b ∷ t) =
    let rest = text_compare s t in if ltb a b then less else if ltb b a then greater else rest

-- `operator<=>`
unfoldable pub compare : Value → Value → PartialOrdering
compare (Value.integer a) (Value.integer b) = int_compare a b
compare (Value.double a) (Value.double b) = double_compare a b
compare (Value.varchar a) (Value.varchar b) = text_compare a b
compare _ _ = unordered

-- `operator==`
unfoldable pub value_eq : Value → Value → Bool
value_eq Value.null Value.null = true
value_eq (Value.integer a) (Value.integer b) = int_eq a b
value_eq (Value.double a) (Value.double b) = double_eq a b
value_eq (Value.varchar a) (Value.varchar b) = text_eq a b
value_eq _ _ = false

unfoldable pub is_lt : PartialOrdering → Bool
is_lt less = true
is_lt _ = false

unfoldable pub is_gt : PartialOrdering → Bool
is_gt greater = true
is_gt _ = false

unfoldable pub is_lteq : PartialOrdering → Bool
is_lteq less = true
is_lteq equivalent = true
is_lteq _ = false

unfoldable pub is_gteq : PartialOrdering → Bool
is_gteq greater = true
is_gteq equivalent = true
is_gteq _ = false

-- The order that reads the two values the other way round.
abbrev pub flip : PartialOrdering → PartialOrdering
flip less = greater
flip equivalent = equivalent
flip greater = less
flip unordered = unordered

text_compare-text_eq : (s t : List ℕ) → (text_compare s t ≡ equivalent) ↔ (text_eq s t ≡ true)
unfolding text_compare text_eq
text_compare-text_eq [] [] = ground arith
text_compare-text_eq [] (b ∷ t) = ground arith
text_compare-text_eq (a ∷ s) [] = ground arith
text_compare-text_eq (a ∷ s) (b ∷ t) = ground (arith, text_compare-text_eq s t)

int_compare-int_eq : (a b : ℤ) → (int_compare a b ≡ equivalent) ↔ (int_eq a b ≡ true)
unfolding int_compare
int_compare-int_eq a b = ground arith

double_compare-double_eq : (a b : ℕ) → (double_compare a b ≡ equivalent) ↔ (double_eq a b ≡ true)
unfolding double_compare double_eq int_compare
double_compare-double_eq a b = ground arith

-- Two values that are not both NULL compare as equivalent exactly when `==` holds of them.
pub compare-value_eq :
    (a b : Value)
    → (is_null a && is_null b) ≡ false
    → (compare a b ≡ equivalent) ↔ (value_eq a b ≡ true)
unfolding compare value_eq is_null
compare-value_eq Value.null Value.null h = absurd (ground arith)
compare-value_eq Value.null (Value.integer b) h = ground arith
compare-value_eq Value.null (Value.double b) h = ground arith
compare-value_eq Value.null (Value.varchar b) h = ground arith
compare-value_eq (Value.integer a) (Value.integer b) h = int_compare-int_eq a b
compare-value_eq (Value.double a) (Value.double b) h = double_compare-double_eq a b
compare-value_eq (Value.varchar a) (Value.varchar b) h = text_compare-text_eq a b
compare-value_eq (Value.integer a) _ h = ground arith
compare-value_eq (Value.double a) _ h = ground arith
compare-value_eq (Value.varchar a) _ h = ground arith

text_compare-flip : (s t : List ℕ) → text_compare t s ≡ flip (text_compare s t)
unfolding text_compare
text_compare-flip [] [] = refl
text_compare-flip [] (b ∷ t) = refl
text_compare-flip (a ∷ s) [] = refl
text_compare-flip (a ∷ s) (b ∷ t) = ground (arith, text_compare-flip s t)

int_compare-flip : (a b : ℤ) → int_compare b a ≡ flip (int_compare a b)
unfolding int_compare int_eq int_lt
int_compare-flip (pos a) (pos b) = ground arith
int_compare-flip (pos a) (negsuc b) = refl
int_compare-flip (negsuc a) (pos b) = refl
int_compare-flip (negsuc a) (negsuc b) = ground arith

double_compare-flip : (a b : ℕ) → double_compare b a ≡ flip (double_compare a b)
unfolding double_compare is_nan
double_compare-flip a b = ground (arith, int_compare-flip (double_key a) (double_key b))

-- Reading a comparison the other way round turns `<` into `>` and keeps the rest.
pub compare-flip : (a b : Value) → compare b a ≡ flip (compare a b)
unfolding compare
compare-flip (Value.integer a) (Value.integer b) = int_compare-flip a b
compare-flip (Value.double a) (Value.double b) = double_compare-flip a b
compare-flip (Value.varchar a) (Value.varchar b) = text_compare-flip a b
compare-flip Value.null Value.null = refl
compare-flip Value.null _ = refl
compare-flip (Value.integer a) _ = refl
compare-flip (Value.double a) _ = refl
compare-flip (Value.varchar a) _ = refl
