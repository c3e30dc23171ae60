-- ===== src/Sql/Parser/Total.antt =====
-- src/sql/parser.cpp: the parser returns a statement or an error for any tokens whose string literals are quoted.
use curiodb.Prelude.{
  ℕ, zero, suc, ◌≤◌, ◌≡◌, ◌⊎◌, inl, inr, refl, true, false, List, [], ◌∷◌, ◌++◌, Option, none,
  length, arith, Bool-cases,
}
use Prim.Native.String.{String}
use curiodb.Prelude.Outcome.{ok, err, Outcome-cases}
use curiodb.Sql.Token.{SourceLocation, TokenType, Token}
use curiodb.Sql.Ast.{Statement}
use curiodb.Sql.Parser.Cursor.{
  Parse, ParseError, reported, length_error, past_end, out_of_rounds, ◌>>=◌, type_code, type_eq,
  ends_input, load, consume,
}
use curiodb.Sql.Parser.Statements.{
  parse_list, parse_items, parse_some_items, parse_create_database, parse_create_table,
  parse_create_index, parse_create, parse_use, parse_select_column, parse_columns, parse_insert,
  parse_where, parse_selected, parse_select, parse_explain, parse_delete, parse_update, parse_start,
  parse_whole, parse_statement,
}
use curiodb.Sql.Parser.Reads.{
  is_quoted, are_quoted, is_input, Reads, then-Reads, read_then-Reads, read_and_then-Reads,
  Reads-relax, Reads-zero, done-Reads, report_error-Reads,
}
use curiodb.Sql.Parser.Steps.{
  current-Reads, check-Reads, advance-Reads, report_found-Reads, if-Reads, match-Reads,
  consume-Reads,
}
use curiodb.Sql.Parser.Returns.{parse_column-Reads, parse_literal-Reads, parse_or_expression-Reads}

-- Each item reads a token, so that there are rounds enough.
parse_list-Reads {ℓ} :
    {A : Type ℓ} (rounds most : ℕ) {item : Parse A}
    → most ≤ rounds
    → ((fewer : ℕ) → Reads fewer 1 item)
    → Reads most 1 (parse_list rounds item)
unfolding parse_list type_eq type_code
parse_list-Reads rounds zero bound h = Reads-zero
parse_list-Reads zero (suc most) bound h = absurd (omega arith)
parse_list-Reads (suc rounds) (suc most) bound h =
    read_then-Reads {fewer = most} (omega arith) (h (suc most)) (λ first.
      then-Reads (match-Reads TokenType.comma) (λ more.
        if-Reads more
          (then-Reads (Reads-relax (parse_list-Reads rounds most (omega arith) h))
            (λ rest. done-Reads _))
          (done-Reads _)))

parse_items-Reads {ℓ} :
    {A : Type ℓ} {most : ℕ} {item : Parse A}
    → ((fewer : ℕ) → Reads fewer 1 item)
    → Reads most 0 (parse_items item)
unfolding parse_items
parse_items-Reads h = record {
  leaves = λ tokens ends le.
      (Reads-relax (parse_list-Reads (length tokens) (length tokens) (omega arith) h)).leaves tokens
        ends (omega arith);
}

parse_some_items-Reads {ℓ} :
    {A : Type ℓ} {most : ℕ} {item : Parse A} (message : String)
    → ((fewer : ℕ) → Reads fewer 1 item)
    → Reads most 0 (parse_some_items message item)
unfolding parse_some_items
parse_some_items-Reads message h = then-Reads (check-Reads TokenType.right_paren) (λ nothing.
    then-Reads current-Reads (λ t. if-Reads nothing (report_error-Reads t _) (parse_items-Reads h)))

module _ {most : ℕ} where
  -- A token that must be there, and what follows.
  must {ℓ} :
      {A : Type ℓ} {next : Token → Parse A} (type : TokenType) (message : String)
      → type_eq type TokenType.end_of_input ≡ false
      → ((t : Token) → Reads most 0 (next t))
      → Reads most 0 (consume type message >>= next)
  must type message other after = then-Reads (Reads-relax (consume-Reads type _ other)) after

  parse_create_database-Reads :
      (location : SourceLocation) → Reads most 0 (parse_create_database location)
  unfolding parse_create_database type_eq type_code
  parse_create_database-Reads location = must TokenType.identifier _ refl (λ name. done-Reads _)

  parse_create_table-Reads :
      (location : SourceLocation) → Reads most 0 (parse_create_table location)
  unfolding parse_create_table type_eq type_code
  parse_create_table-Reads location = must TokenType.identifier _ refl (λ name.
      must TokenType.left_paren _ refl (λ p.
        then-Reads (parse_some_items-Reads _ (λ n. parse_column-Reads))
          (λ columns. must TokenType.right_paren _ refl (λ q. done-Reads _))))

  parse_create_index-Reads :
      (location : SourceLocation) → Reads most 0 (parse_create_index location)
  unfolding parse_create_index type_eq type_code
  parse_create_index-Reads location = must TokenType.identifier _ refl (λ name.
      must TokenType.on _ refl (λ o. must TokenType.identifier _ refl (λ table.
        must TokenType.left_paren _ refl (λ p.
          must TokenType.identifier _ refl
            (λ column. must TokenType.right_paren _ refl (λ q. done-Reads _))))))

  parse_create-Reads : Reads most 0 parse_create
  unfolding parse_create
  parse_create-Reads = then-Reads advance-Reads (λ start.
      then-Reads (match-Reads TokenType.database) (λ b.
        if-Reads b (parse_create_database-Reads start.location) (
          then-Reads (match-Reads TokenType.table) (λ c.
            if-Reads c (parse_create_table-Reads start.location) (
              then-Reads (match-Reads TokenType.index) (λ d.
                if-Reads d (parse_create_index-Reads start.location) (report_found-Reads _)))))))

  parse_use-Reads : Reads most 0 parse_use
  unfolding parse_use type_eq type_code
  parse_use-Reads =
      then-Reads advance-Reads (λ start. must TokenType.identifier _ refl (λ name. done-Reads _))

parse_select_column-Reads : {most : ℕ} → Reads most 1 parse_select_column
unfolding parse_select_column type_eq type_code
parse_select_column-Reads =
    read_and_then-Reads (consume-Reads TokenType.identifier _ refl) (λ column. done-Reads _)

parse_columns-Reads : {most : ℕ} → Reads most 0 parse_columns
unfolding parse_columns
parse_columns-Reads =
    then-Reads (match-Reads TokenType.star)
      (λ b. if-Reads b (done-Reads []) (parse_items-Reads (λ n. parse_select_column-Reads)))

module _ (double_from_chars : List ℕ → Option ℕ) {most : ℕ} where
  parse_insert-Reads : Reads most 0 (parse_insert double_from_chars)
  unfolding parse_insert type_eq type_code
  parse_insert-Reads = then-Reads advance-Reads (λ start. must TokenType.into _ refl (λ i.
      must TokenType.identifier _ refl (λ table. must TokenType.values _ refl (λ v.
        must TokenType.left_paren _ refl (λ p.
          then-Reads (parse_some_items-Reads _ (λ n. parse_literal-Reads double_from_chars))
            (λ values. must TokenType.right_paren _ refl (λ q. done-Reads _)))))))

  parse_where-Reads : Reads most 0 (parse_where double_from_chars)
  unfolding parse_where
  parse_where-Reads = then-Reads (match-Reads TokenType.where_keyword) (λ b.
      if-Reads b
        (then-Reads (Reads-relax (parse_or_expression-Reads double_from_chars)) (λ e. done-Reads _))
        (done-Reads none))

  parse_selected-Reads : Reads most 0 (parse_selected double_from_chars)
  unfolding parse_selected type_eq type_code
  parse_selected-Reads = then-Reads advance-Reads (λ start.
      then-Reads parse_columns-Reads (λ columns. must TokenType.from _ refl (λ f.
        must TokenType.identifier _ refl
          (λ table. then-Reads parse_where-Reads (λ clause. done-Reads _)))))

  parse_select-Reads : Reads most 0 (parse_select double_from_chars)
  unfolding parse_select
  parse_select-Reads = then-Reads parse_selected-Reads (λ selected. done-Reads _)

  parse_explain-Reads : Reads most 0 (parse_explain double_from_chars)
  unfolding parse_explain
  parse_explain-Reads = then-Reads advance-Reads (λ e.
      then-Reads (check-Reads TokenType.select) (λ b.
        if-Reads b (then-Reads parse_selected-Reads (λ selected. done-Reads _))
          (report_found-Reads _)))

  parse_delete-Reads : Reads most 0 (parse_delete double_from_chars)
  unfolding parse_delete type_eq type_code
  parse_delete-Reads = then-Reads advance-Reads (λ start. must TokenType.from _ refl (λ f.
      must TokenType.identifier _ refl
        (λ table. then-Reads parse_where-Reads (λ clause. done-Reads _))))

  parse_update-Reads : Reads most 0 (parse_update double_from_chars)
  unfolding parse_update type_eq type_code
  parse_update-Reads = then-Reads advance-Reads (λ start. must TokenType.identifier _ refl (λ table.
      must TokenType.set _ refl (λ s. must TokenType.identifier _ refl (λ column.
        must TokenType.equal _ refl (λ e.
          then-Reads (Reads-relax (parse_literal-Reads double_from_chars))
            (λ value. then-Reads parse_where-Reads (λ clause. done-Reads _)))))))

  parse_start-Reads : (type : TokenType) → Reads most 0 (parse_start double_from_chars type)
  unfolding parse_start
  parse_start-Reads TokenType.create = parse_create-Reads
  parse_start-Reads TokenType.use_keyword = parse_use-Reads
  parse_start-Reads TokenType.insert = parse_insert-Reads
  parse_start-Reads TokenType.select = parse_select-Reads
  parse_start-Reads TokenType.delete = parse_delete-Reads
  parse_start-Reads TokenType.update = parse_update-Reads
  parse_start-Reads TokenType.explain = parse_explain-Reads
  parse_start-Reads TokenType.invalid = then-Reads current-Reads (λ t. report_error-Reads t _)
  parse_start-Reads _ = report_found-Reads _

  parse_whole-Reads : Reads most 0 (parse_whole double_from_chars)
  unfolding parse_whole type_eq type_code
  parse_whole-Reads = then-Reads current-Reads (λ token.
      then-Reads (parse_start-Reads token.type) (λ statement. must TokenType.semicolon _ refl (λ s.
        then-Reads (check-Reads TokenType.end_of_input)
          (λ b. if-Reads b (done-Reads statement) (report_found-Reads _)))))

ends_input-append :
    (tokens : List Token) (t : Token)
    → type_eq t.type TokenType.end_of_input ≡ true
    → ends_input (tokens ++ t ∷ []) ≡ true
unfolding ends_input
ends_input-append [] t e = e
ends_input-append (u ∷ []) t e = e
ends_input-append (u ∷ v ∷ rest) t e = ends_input-append (v ∷ rest) t e

are_quoted-append :
    (tokens : List Token) (t : Token)
    → is_quoted t ≡ true
    → are_quoted tokens ≡ true
    → are_quoted (tokens ++ t ∷ []) ≡ true
unfolding are_quoted
are_quoted-append [] t e h = ground arith
are_quoted-append (u ∷ rest) t e h = ground (arith, are_quoted-append rest t e)

load-is_input : (tokens : List Token) → are_quoted tokens ≡ true → is_input (load tokens) ≡ true
unfolding load is_input is_quoted type_eq type_code
load-is_input tokens quoted = elim (Bool-cases (ends_input tokens)) [
  | inl ends ↦ rw ends (rw (ends, quoted) refl)
  | inr unfinished ↦
      rw unfinished
        (rw (ends_input-append tokens _ refl, are_quoted-append tokens _ refl quoted) refl)
]

-- For tokens whose string literals have two bytes at least, as quotes give them, the parser returns a
-- statement or a reported error: it ends in no exception, no token is read past the last one, and no loop or
-- depth of parentheses has more rounds than there are tokens.
pub parse_statement-returns :
    (double_from_chars : List ℕ → Option ℕ) (tokens : List Token)
    → are_quoted tokens ≡ true
    → ((s : Statement) × (parse_statement double_from_chars tokens ≡ ok s))
      ⊎ ((e : ParseError) × (parse_statement double_from_chars tokens ≡ err (reported e)))
unfolding parse_statement
parse_statement-returns double_from_chars tokens quoted =
    let whole : Reads (length (load tokens)) 0 (parse_whole double_from_chars) =
      parse_whole-Reads double_from_chars in
    let left = whole.leaves (load tokens) (load-is_input tokens quoted) (omega arith) in
    elim (Outcome-cases (parse_whole double_from_chars (load tokens))) [
      | inl ((statement, rest), made) ↦ inl (statement, rw (made, parse_statement) refl)
      | inr (reported e, failed) ↦ inr (e, rw (failed, parse_statement) refl)
      | inr (length_error, failed) ↦ absurd (rw failed at left)
      | inr (past_end, failed) ↦ absurd (rw failed at left)
      | inr (out_of_rounds, failed) ↦ absurd (rw failed at left)
    ]
