-- ===== src/Sql/Lexer/Chars.antt =====
-- src/sql/lexer.cpp: the classes of bytes, and the keywords.
use curiodb.Prelude.{ℕ, ◌==◌, leb, Bool, ◌&&◌, ◌||◌, List, [], ◌∷◌, map, if◌then◌else◌}
use curiodb.Prelude.Text.{text, text_eq, to_upper}
use curiodb.Sql.Token.{TokenType}

unfoldable pub is_digit : ℕ → Bool
is_digit c = leb b'0' c && leb c b'9'

-- `std::isalpha` in the "C" locale.
unfoldable pub is_alpha : ℕ → Bool
is_alpha c = (leb b'A' c && leb c b'Z') || (leb b'a' c && leb c b'z')

unfoldable pub is_identifier_start : ℕ → Bool
unfolding is_alpha
is_identifier_start c = is_alpha c || (c == b'_')

unfoldable pub is_identifier_part : ℕ → Bool
unfolding is_alpha is_digit
is_identifier_part c = (is_alpha c || is_digit c) || (c == b'_')

-- `std::isspace` in the "C" locale: the blank, and the bytes 9 to 13.
unfoldable pub is_space : ℕ → Bool
is_space c = (c == 32) || (leb 9 c && leb c 13)

unfoldable pub keywords : List (List ℕ × TokenType)
keywords =
    (text "CREATE", TokenType.create)
    ∷ (text "INDEX", TokenType.index)
    ∷ (text "ON", TokenType.on)
    ∷ (text "DATABASE", TokenType.database)
    ∷ (text "USE", TokenType.use_keyword)
    ∷ (text "TABLE", TokenType.table)
    ∷ (text "INT", TokenType.int)
    ∷ (text "DOUBLE", TokenType.double)
    ∷ (text "VARCHAR", TokenType.varchar)
    ∷ (text "PRIMARY", TokenType.primary)
    ∷ (text "KEY", TokenType.key)
    ∷ (text "UNIQUE", TokenType.unique)
    ∷ (text "IS", TokenType.is)
    ∷ (text "NOT", TokenType.not)
    ∷ (text "NULL", TokenType.null)
    ∷ (text "INSERT", TokenType.insert)
    ∷ (text "INTO", TokenType.into)
    ∷ (text "VALUES", TokenType.values)
    ∷ (text "SELECT", TokenType.select)
    ∷ (text "EXPLAIN", TokenType.explain)
    ∷ (text "DELETE", TokenType.delete)
    ∷ (text "UPDATE", TokenType.update)
    ∷ (text "SET", TokenType.set)
    ∷ (text "FROM", TokenType.from)
    ∷ (text "WHERE", TokenType.where_keyword)
    ∷ (text "AND", TokenType.and)
    ∷ (text "OR", TokenType.or)
    ∷ []

unfoldable pub find_keyword : List ℕ → List (List ℕ × TokenType) → TokenType
find_keyword word [] = TokenType.identifier
find_keyword word ((keyword, type) ∷ rest) =
    let later = find_keyword word rest in if text_eq keyword word then type else later

unfoldable pub identifier_type : List ℕ → TokenType
unfolding keywords find_keyword
identifier_type lexeme = find_keyword (map to_upper lexeme) keywords
