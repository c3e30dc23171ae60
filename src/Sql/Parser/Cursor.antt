-- ===== src/Sql/Parser/Cursor.antt =====
-- src/sql/parser.cpp: the cursor over the tokens.
use curiodb.Prelude.{
  ℕ, ◌+◌, ◌-◌, ◌*◌, Bool, true, false, ◌&&◌, List, [], ◌∷◌, ◌++◌, Option, none, some, if◌then◌else◌,
  ◌==◌, leb,
}
use Prim.Native.String.{String}
use curiodb.Prelude.Text.{text}
use curiodb.Prelude.Outcome.{Outcome, ok, err}
use curiodb.Sql.Token.{SourceLocation, TokenType, Token}

pub record ParseError : Type 0 where
  pub message : List ℕ
  pub location : SourceLocation

-- Why there is no result: the error that was reported, the exception `std::length_error`, a read past the
-- last token, or a loop that has run out of its rounds.
pub data Failure : Type 0 where
  reported : ParseError → Failure
  length_error past_end out_of_rounds : Failure

-- A parsing function takes the tokens from `current_index_` on. Every function returns as soon as an
-- error is reported, so that `error_` is set once.
abbrev pub Parse {ℓ} : Type ℓ → Type ℓ
Parse A = List Token → Outcome Failure (A × List Token)

abbrev pub and_then {ℓ κ} :
    {A : Type ℓ} {B : Type κ}
    → Outcome Failure (A × List Token)
    → (A → Parse B)
    → Outcome Failure (B × List Token)
and_then (err failure) next = err failure
and_then (ok (result, rest)) next = next result rest

infixl 5 ◌>>=◌ ◌>>◌
abbrev pub ◌>>=◌ {ℓ κ} : {A : Type ℓ} {B : Type κ} → Parse A → (A → Parse B) → Parse B
first >>= next = λ tokens. and_then (first tokens) next

abbrev pub ◌>>◌ {ℓ κ} : {A : Type ℓ} {B : Type κ} → Parse A → Parse B → Parse B
first >> rest = first >>= λ finished. rest

abbrev pub done {ℓ} : {A : Type ℓ} → A → Parse A
done result tokens = ok (result, tokens)

-- The value of an enumerator.
unfoldable pub type_code : TokenType → ℕ
type_code TokenType.end_of_input = 0
type_code TokenType.invalid = 1
type_code TokenType.identifier = 2
type_code TokenType.integer_literal = 3
type_code TokenType.floating_point_literal = 4
type_code TokenType.string_literal = 5
type_code TokenType.create = 6
type_code TokenType.index = 7
type_code TokenType.on = 8
type_code TokenType.database = 9
type_code TokenType.use_keyword = 10
type_code TokenType.table = 11
type_code TokenType.int = 12
type_code TokenType.double = 13
type_code TokenType.varchar = 14
type_code TokenType.primary = 15
type_code TokenType.key = 16
type_code TokenType.unique = 17
type_code TokenType.is = 18
type_code TokenType.not = 19
type_code TokenType.null = 20
type_code TokenType.insert = 21
type_code TokenType.into = 22
type_code TokenType.values = 23
type_code TokenType.select = 24
type_code TokenType.explain = 25
type_code TokenType.delete = 26
type_code TokenType.update = 27
type_code TokenType.set = 28
type_code TokenType.from = 29
type_code TokenType.where_keyword = 30
type_code TokenType.and = 31
type_code TokenType.or = 32
type_code TokenType.left_paren = 33
type_code TokenType.right_paren = 34
type_code TokenType.comma = 35
type_code TokenType.semicolon = 36
type_code TokenType.dot = 37
type_code TokenType.equal = 38
type_code TokenType.not_equal = 39
type_code TokenType.less_than = 40
type_code TokenType.less_than_or_equal = 41
type_code TokenType.greater_than = 42
type_code TokenType.greater_than_or_equal = 43
type_code TokenType.plus = 44
type_code TokenType.minus = 45
type_code TokenType.star = 46
type_code TokenType.slash = 47

unfoldable pub type_eq : TokenType → TokenType → Bool
unfolding type_code
type_eq s t = type_code s == type_code t

unfoldable pub ends_input : List Token → Bool
ends_input [] = false
ends_input (t ∷ []) = type_eq t.type TokenType.end_of_input
ends_input (t ∷ u ∷ rest) = ends_input (u ∷ rest)

-- The constructor: the tokens end with one of type `end_of_input`.
unfoldable pub load : List Token → List Token
unfolding ends_input
load tokens =
    if ends_input tokens
    then tokens
    else tokens
      ++ record {
        type = TokenType.end_of_input;
        lexeme = [];
        location = record { offset = 0; line = 1; column = 1 };
      }
        ∷ []

unfoldable pub current : Parse Token
current [] = err past_end
current (t ∷ rest) = ok (t, t ∷ rest)

unfoldable pub check : TokenType → Parse Bool
unfolding type_eq
check type [] = err past_end
check type (t ∷ rest) = ok (type_eq t.type type, t ∷ rest)

unfoldable pub advance : Parse Token
unfolding type_eq
advance [] = err past_end
advance (t ∷ rest) = ok (t, if type_eq t.type TokenType.end_of_input then t ∷ rest else rest)

unfoldable pub match : TokenType → Parse Bool
unfolding check advance
match type = do there ← check type; if there then advance >> done true else done false

unfoldable pub found_token : Token → List ℕ
unfolding type_eq
found_token token =
    if type_eq token.type TokenType.end_of_input
    then text "end of input"
    else text "'" ++ (token.lexeme ++ text "'")

unfoldable pub report_error {ℓ} : {A : Type ℓ} → Token → List ℕ → Parse A
report_error token message tokens =
    err (reported (record { message = message; location = token.location }))

-- An error at the current token, with what was found there.
unfoldable pub report_found {ℓ} : {A : Type ℓ} → String → Parse A
unfolding current report_error found_token
report_found message = do
  token ← current
  report_error token (text message ++ (text ", found " ++ found_token token))

unfoldable pub consume : TokenType → String → Parse Token
unfolding check advance report_found
consume type message = do there ← check type; if there then advance else report_found message

-- `std::from_chars` into an integer reads the digits of a text that starts with one.
unfoldable pub digits_value : ℕ → List ℕ → Option ℕ
digits_value value [] = some value
digits_value value (d ∷ rest) =
    let whole = digits_value (value * 10 + (d - 48)) rest in
    if leb 48 d && leb d 57 then whole else none

unfoldable pub from_digits : List ℕ → Option ℕ
unfolding digits_value
from_digits [] = none
from_digits (d ∷ rest) = digits_value 0 (d ∷ rest)
