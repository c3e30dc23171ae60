-- ===== src/Sql/Parser/Steps.antt =====
-- src/sql/parser.cpp: the steps over one token keep to what a parsing function may do.
use curiodb.Prelude.{
  ℕ, suc, ◌≤◌, ◌≡◌, refl, inl, inr, Bool, true, false, List, [], ◌∷◌, if◌then◌else◌, ==_iff, length,
  leb, arith, Bool-cases,
}
use Prim.Native.String.{String}
use curiodb.Sql.Token.{TokenType, Token}
use curiodb.Sql.Parser.Cursor.{
  Parse, ◌>>=◌, type_code, type_eq, ends_input, current, check, advance, match, report_error,
  report_found, consume,
}
use curiodb.Sql.Parser.Reads.{
  is_quoted, is_input, is_input-is_quoted, Leaves, Leaves-mono, done-Reads, is_input-tail, Reads,
  report_error-Reads, then-Reads,
}

current-Leaves :
    (tokens : List Token) → is_input tokens ≡ true → Leaves 0 (length tokens) (current tokens)
unfolding current is_input ends_input
current-Leaves [] ends = absurd (ground arith)
current-Leaves (t ∷ rest) ends = (ends, omega arith)

check-Leaves :
    (type : TokenType) (tokens : List Token)
    → is_input tokens ≡ true
    → Leaves 0 (length tokens) (check type tokens)
unfolding check is_input ends_input
check-Leaves type [] ends = absurd (ground arith)
check-Leaves type (t ∷ rest) ends = (ends, omega arith)

advance-Leaves :
    (tokens : List Token) → is_input tokens ≡ true → Leaves 0 (length tokens) (advance tokens)
unfolding advance is_input ends_input
advance-Leaves [] ends = absurd (ground arith)
advance-Leaves (t ∷ rest) ends = elim (Bool-cases (type_eq t.type TokenType.end_of_input)) [
  | inl last ↦ rw last (ends, omega arith)
  | inr other ↦ rw other (is_input-tail t rest ends other, omega arith)
]

-- A type that a token has is its only one.
type_eq-other :
    (t : TokenType) (type : TokenType)
    → type_eq type TokenType.end_of_input ≡ false
    → type_eq t type ≡ true
    → type_eq t TokenType.end_of_input ≡ false
unfolding type_eq
type_eq-other t type other same = ground (arith, ==_iff (type_code t) (type_code type))

-- After a test of the type, the token is passed over or stays.
check-advance-Leaves {ℓ} :
    {A : Type ℓ} (most uses more : ℕ) (type : TokenType) (some_way : Token → Parse A)
    (other_way : Parse A) (tokens : List Token)
    → type_eq type TokenType.end_of_input ≡ false
    → uses ≤ suc more
    → ((t : Token) → Reads most more (some_way t))
    → Reads (suc most) uses other_way
    → is_input tokens ≡ true
    → length tokens ≤ suc most
    → Leaves uses
        (length tokens)
        ((check type >>= λ b. if b then advance >>= some_way else other_way) tokens)
unfolding check advance
check-advance-Leaves most uses more type some_way other_way [] other bound on off ends le =
    unfold is_input ends_input in absurd (ground arith)
check-advance-Leaves most uses more type some_way other_way (t ∷ rest) other bound on off ends le =
    elim (Bool-cases (type_eq t.type type)) [
      | inr differs ↦ rw differs (off.leaves (t ∷ rest) ends le)
      | inl same ↦
          let stays = type_eq-other t.type type other same in
          rw (same, stays)
            (Leaves-mono more uses (length rest) (suc (length rest)) (some_way t rest) (omega arith)
              ((on t).leaves rest (is_input-tail t rest ends stays) (omega arith)))
    ]

string_literal-Leaves {ℓ} :
    {A : Type ℓ} (most : ℕ) (some_way : Token → Parse A) (other_way : Parse A) (tokens : List Token)
    → ((t : Token) → leb 2 (length t.lexeme) ≡ true → Reads most 0 (some_way t))
    → Reads (suc most) 1 other_way
    → is_input tokens ≡ true
    → length tokens ≤ suc most
    → Leaves 1 (length tokens) (
        (check TokenType.string_literal >>= λ b. if b then advance >>= some_way else other_way)
          tokens)
unfolding check advance
string_literal-Leaves most some_way other_way [] on off input le =
    unfold is_input ends_input in absurd (ground arith)
string_literal-Leaves most some_way other_way (t ∷ rest) on off input le =
    elim (Bool-cases (type_eq t.type TokenType.string_literal)) [
      | inr differs ↦ rw differs (off.leaves (t ∷ rest) input le)
      | inl same ↦
          let stays = type_eq-other t.type TokenType.string_literal refl same in
          let quoted : leb 2 (length t.lexeme) ≡ true =
            unfold is_quoted in ground (arith, is_input-is_quoted t rest input) in
          rw (same, stays)
            (Leaves-mono 0 1 (length rest) (suc (length rest)) (some_way t rest) (omega arith)
              ((on t quoted).leaves rest (is_input-tail t rest input stays) (omega arith)))
    ]

-- A string literal is read with its quotes.
pub string_literal-Reads {ℓ} :
    {A : Type ℓ} {most : ℕ} {some_way : Token → Parse A} {other_way : Parse A}
    → ((t : Token) → leb 2 (length t.lexeme) ≡ true → Reads most 0 (some_way t))
    → Reads (suc most) 1 other_way
    → Reads
        (suc most)
        1
        (check TokenType.string_literal >>= λ b. if b then advance >>= some_way else other_way)
string_literal-Reads {most = most} {some_way = some_way} on off = record {
  leaves = λ tokens input le. string_literal-Leaves most some_way _ tokens on off input le;
}

module _ {most : ℕ} where
  pub current-Reads : Reads most 0 current
  current-Reads = record { leaves = λ tokens ends le. current-Leaves tokens ends }

  pub check-Reads : (type : TokenType) → Reads most 0 (check type)
  check-Reads type = record { leaves = λ tokens ends le. check-Leaves type tokens ends }

  pub advance-Reads : Reads most 0 advance
  advance-Reads = record { leaves = λ tokens ends le. advance-Leaves tokens ends }

  pub report_found-Reads {ℓ} :
      {A : Type ℓ} {uses : ℕ} (message : String) → Reads {A = A} most uses (report_found message)
  unfolding report_found
  report_found-Reads message = then-Reads current-Reads (λ token. report_error-Reads token _)

  pub if-Reads {ℓ} :
      {A : Type ℓ} {uses : ℕ} {p q : Parse A} (b : Bool)
      → Reads most uses p
      → Reads most uses q
      → Reads most uses (if b then p else q)
  if-Reads true yes_way no_way = yes_way
  if-Reads false yes_way no_way = no_way

  pub match-Reads : (type : TokenType) → Reads most 0 (match type)
  unfolding match
  match-Reads type =
      then-Reads (check-Reads type)
        (λ b. if-Reads b (then-Reads advance-Reads (λ t. done-Reads true)) (done-Reads false))

-- A test of the type and a step over the token: what follows has one token less.
pub check-advance-Reads {ℓ} :
    {A : Type ℓ} {most uses more : ℕ} {some_way : Token → Parse A} {other_way : Parse A}
    (type : TokenType)
    → type_eq type TokenType.end_of_input ≡ false
    → uses ≤ suc more
    → ((t : Token) → Reads most more (some_way t))
    → Reads (suc most) uses other_way
    → Reads (suc most) uses (check type >>= λ b. if b then advance >>= some_way else other_way)
check-advance-Reads {most = most} {uses = uses} {more = more} type other bound on off = record {
  leaves = λ tokens ends le.
      check-advance-Leaves most uses more type _ _ tokens other bound on off ends le;
}

match_then-Leaves {ℓ} :
    {A : Type ℓ} (most uses more : ℕ) (type : TokenType) (some_way other_way : Parse A)
    (tokens : List Token)
    → type_eq type TokenType.end_of_input ≡ false
    → uses ≤ suc more
    → Reads most more some_way
    → Reads (suc most) uses other_way
    → is_input tokens ≡ true
    → length tokens ≤ suc most
    → Leaves uses (length tokens) ((match type >>= λ b. if b then some_way else other_way) tokens)
unfolding match check advance
match_then-Leaves most uses more type some_way other_way [] other bound on off ends le =
    unfold is_input ends_input in absurd (ground arith)
match_then-Leaves most uses more type some_way other_way (t ∷ rest) other bound on off ends le =
    elim (Bool-cases (type_eq t.type type)) [
      | inr differs ↦ rw differs (off.leaves (t ∷ rest) ends le)
      | inl same ↦
          let stays = type_eq-other t.type type other same in
          rw (same, stays)
            (Leaves-mono more uses (length rest) (suc (length rest)) (some_way rest) (omega arith)
              (on.leaves rest (is_input-tail t rest ends stays) (omega arith)))
    ]

pub match_then-Reads {ℓ} :
    {A : Type ℓ} {most uses more : ℕ} {some_way other_way : Parse A} (type : TokenType)
    → type_eq type TokenType.end_of_input ≡ false
    → uses ≤ suc more
    → Reads most more some_way
    → Reads (suc most) uses other_way
    → Reads (suc most) uses (match type >>= λ b. if b then some_way else other_way)
match_then-Reads {most = most} {uses = uses} {more = more} type other bound on off = record {
  leaves =
      λ tokens ends le. match_then-Leaves most uses more type _ _ tokens other bound on off ends le;
}

consume-Leaves :
    (type : TokenType) (message : String) (tokens : List Token)
    → type_eq type TokenType.end_of_input ≡ false
    → is_input tokens ≡ true
    → Leaves 1 (length tokens) (consume type message tokens)
unfolding consume check advance report_found current report_error
consume-Leaves type message [] other ends = unfold is_input ends_input in absurd (ground arith)
consume-Leaves type message (t ∷ rest) other ends = elim (Bool-cases (type_eq t.type type)) [
  | inr differs ↦ rw differs tt
  | inl same ↦
      let stays = type_eq-other t.type type other same in
      rw (same, stays) (is_input-tail t rest ends stays, omega arith)
]

-- A token that must be there is read.
pub consume-Reads :
    {most : ℕ} (type : TokenType) (message : String)
    → type_eq type TokenType.end_of_input ≡ false
    → Reads most 1 (consume type message)
consume-Reads type message other = record {
  leaves = λ tokens ends le. consume-Leaves type message tokens other ends;
}
