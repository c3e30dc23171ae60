-- ===== src/Sql/Lexer/Words.antt =====
-- src/sql/lexer.cpp: keywords without case, and which bytes the lexemes of literals have.
use curiodb.Prelude.{ℕ, ◌≡◌, refl, List, [], ◌∷◌, map, arith}
use curiodb.Prelude.Text.{to_lower, to_upper}
use curiodb.Sql.Lexer.Chars.{identifier_type}

to_upper-to_lower : (c : ℕ) → to_upper (to_lower c) ≡ to_upper c
unfolding to_upper to_lower
to_upper-to_lower c = ground arith

map-to_upper-to_lower : (s : List ℕ) → map to_upper (map to_lower s) ≡ map to_upper s
map-to_upper-to_lower [] = refl
map-to_upper-to_lower (c ∷ s) = rw (to_upper-to_lower c, map-to_upper-to_lower s) refl

-- Two words that differ only in case are the same keyword, or both no keyword.
pub identifier_type-to_lower :
    (s t : List ℕ) → map to_lower s ≡ map to_lower t → identifier_type s ≡ identifier_type t
unfolding identifier_type
identifier_type-to_lower s t h = rw (← map-to_upper-to_lower s, h, map-to_upper-to_lower t) refl
