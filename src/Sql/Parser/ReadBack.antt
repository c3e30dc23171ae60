-- ===== src/Sql/Parser/ReadBack.antt =====
-- src/sql/parser.cpp: lists of items, and the columns of a table, are read back.
use curiodb.Prelude.{
  ℕ, zero, suc, ◌^◌, ◌<◌, ◌≤◌, ◌≡◌, refl, Bool, true, false, List, [], ◌∷◌, ◌++◌, Option, none,
  some, ltb, leb, All, arith, length, length-append, append_assoc,
}
use curiodb.Prelude.Text.{decimal}
use curiodb.Prelude.Outcome.{ok}
use curiodb.Types.{DataTypeKind}
use curiodb.Sql.Token.{SourceLocation, TokenType, Token}
use curiodb.Sql.Ast.{ColumnDefinition}
use curiodb.Sql.Parser.Cursor.{Parse, type_code, type_eq, current, check, advance, match, consume}
use curiodb.Sql.Parser.Clauses.{
  parse_constraints, parse_varchar_length, parse_data_type, parse_column,
}
use curiodb.Sql.Parser.Statements.{parse_list, parse_items}
use curiodb.Sql.Parser.Print.{token}
use curiodb.Sql.Parser.Sentences.{
  items_tokens, type_tokens, constraint_tokens, column_tokens, IsType, IsConstrained, IsColumn,
}
use curiodb.Sql.Parser.Literals.{from_digits-decimal}
use curiodb.Sql.Parser.RoundTrip.{is_next}

-- A printed item is read back before any tokens that may follow it.
module _ {ℓ} {A : Type ℓ} (item : Parse A) (print : A → List Token) (IsItem : A → Type 0)
    (IsAfter : List Token → Type 0) (place : SourceLocation)
    (after_comma : (rest : List Token) → IsAfter (token TokenType.comma [] place ∷ rest))
    (reads : (x : A) (tail : List Token)
      → IsItem x
      → IsAfter tail
      → item (print x ++ tail) ≡ ok (x, tail)) where
  parse_list-items_tokens :
      (rounds : ℕ) (x : A) (xs : List A) (tail : List Token)
      → length (x ∷ xs) ≤ rounds
      → All IsItem (x ∷ xs)
      → IsAfter tail
      → is_next TokenType.comma tail ≡ false
      → parse_list rounds item (items_tokens print place (x ∷ xs) ++ tail) ≡ ok (x ∷ xs, tail)
  unfolding parse_list items_tokens match check advance is_next type_eq type_code
  parse_list-items_tokens zero x xs tail bound h after stop = absurd (omega arith)
  parse_list-items_tokens (suc rounds) x [] [] bound (h, hs) after stop = absurd (ground arith)
  parse_list-items_tokens (suc rounds) x [] (t ∷ tail) bound (h, hs) after stop =
      rw (reads x (t ∷ tail) h after) (rw stop refl)
  parse_list-items_tokens (suc rounds) x (y ∷ xs) tail bound (h, hs) after stop =
      let rest = items_tokens print place (y ∷ xs) in
      rw
        (
          append_assoc (print x) (token TokenType.comma [] place ∷ rest) tail,
          reads x (token TokenType.comma [] place ∷ (rest ++ tail)) h (after_comma (rest ++ tail)),
          parse_list-items_tokens rounds y xs tail (omega arith) hs after stop,
        )
        refl

  length-items_tokens :
      (x : A) (xs : List A) → length xs ≤ length (items_tokens print place (x ∷ xs))
  unfolding items_tokens
  length-items_tokens x [] = omega arith
  length-items_tokens x (y ∷ xs) = omega (
    arith,
    length-items_tokens y xs,
    length-append (print x) (token TokenType.comma [] place ∷ items_tokens print place (y ∷ xs)),
  )

  pub parse_items-items_tokens :
      (x : A) (xs : List A) (t : Token) (tail : List Token)
      → All IsItem (x ∷ xs)
      → IsAfter (t ∷ tail)
      → type_eq t.type TokenType.comma ≡ false
      → parse_items item (items_tokens print place (x ∷ xs) ++ t ∷ tail) ≡ ok (x ∷ xs, t ∷ tail)
  unfolding parse_items is_next
  parse_items-items_tokens x xs t tail h after stop =
      parse_list-items_tokens _ x xs (t ∷ tail)
        (omega (
          arith,
          length-items_tokens x xs,
          length-append (items_tokens print place (x ∷ xs)) (t ∷ tail),
        ))
        h after stop

-- A token that is no constraint.
abbrev pub IsAfterColumn : List Token → Type 0
IsAfterColumn tail =
    (is_next TokenType.primary tail ≡ false)
    × (is_next TokenType.unique tail ≡ false)
    × (is_next TokenType.not tail ≡ false)

parse_constraints-constraint_tokens :
    (place : SourceLocation) (primary_key unique not_null : Bool) (t : Token) (tail : List Token)
    → IsConstrained primary_key unique not_null
    → IsAfterColumn (t ∷ tail)
    → parse_constraints
        (length (constraint_tokens place primary_key unique not_null ++ t ∷ tail))
        false
        false
        false
        (constraint_tokens place primary_key unique not_null ++ t ∷ tail)
      ≡ ok ((primary_key, unique, not_null), t ∷ tail)
unfolding parse_constraints constraint_tokens match check advance consume current is_next type_eq
    type_code
parse_constraints-constraint_tokens place true unique not_null t tail (h, h') (p, u, n) =
    rw (p, u, n, h, h') refl
parse_constraints-constraint_tokens place false true true t tail h (p, u, n) = rw (p, u, n) refl
parse_constraints-constraint_tokens place false true false t tail h (p, u, n) = rw (p, u, n) refl
parse_constraints-constraint_tokens place false false true t tail h (p, u, n) = rw (p, u, n) refl
parse_constraints-constraint_tokens place false false false t tail h (p, u, n) = rw (p, u, n) refl

parse_varchar_length-decimal :
    (n : ℕ) (place : SourceLocation) (tail : List Token)
    → 0 < n
    → n < 2 ^ 64
    → parse_varchar_length (token TokenType.integer_literal (decimal n) place) tail ≡ ok (n, tail)
unfolding parse_varchar_length
parse_varchar_length-decimal n place tail some_length small =
    let low : leb 1 n ≡ true = ground arith in
    let high : ltb n (2 ^ 64) ≡ true = ground arith in
    rw (from_digits-decimal n, parse_varchar_length) (rw (low, high) refl)

parse_data_type-type_tokens :
    (place : SourceLocation) (kind : DataTypeKind) (size : Option ℕ) (tail : List Token)
    → IsType kind size
    → parse_data_type (type_tokens place kind size ++ tail)
      ≡ ok (record { kind = kind; length = size }, tail)
unfolding parse_data_type type_tokens match check advance consume type_eq type_code
parse_data_type-type_tokens place DataTypeKind.integer none tail h = refl
parse_data_type-type_tokens place DataTypeKind.integer (some n) tail h = absurd h
parse_data_type-type_tokens place DataTypeKind.double none tail h = refl
parse_data_type-type_tokens place DataTypeKind.double (some n) tail h = absurd h
parse_data_type-type_tokens place DataTypeKind.varchar none tail h = absurd h
parse_data_type-type_tokens place DataTypeKind.varchar (some n) tail (h, h') =
    rw (parse_varchar_length-decimal n place (token TokenType.right_paren [] place ∷ tail) h h')
      refl

pub parse_column-column_tokens :
    (c : ColumnDefinition) (tail : List Token)
    → IsColumn c
    → IsAfterColumn tail
    → parse_column (column_tokens c ++ tail) ≡ ok (c, tail)
unfolding parse_column column_tokens consume check advance type_eq type_code is_next
parse_column-column_tokens c [] (typed, constrained) (after, _, _) = absurd (ground arith)
parse_column-column_tokens c (t ∷ tail) (typed, constrained) after =
    let set = constraint_tokens c.location c.primary_key c.unique c.not_null in
    rw
      (
        append_assoc (type_tokens c.location c.type.kind c.type.length) set (t ∷ tail),
        parse_data_type-type_tokens c.location c.type.kind c.type.length (set ++ t ∷ tail) typed,
        parse_constraints-constraint_tokens c.location c.primary_key c.unique c.not_null t tail
            constrained after,
      )
      refl
