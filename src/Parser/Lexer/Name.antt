-- ===== src/Parser/Lexer/Name.antt =====
-- Identifiers and keywords (_lex of internal/parser/lexer.go).
use gescript.Base.{
  ℕ, Bool, ◌||◌, ◌&&◌, leb, ◌==◌, Option, none, some, List, [], ◌∷◌, Bytes, str_eq, if◌then◌else◌,
}
use gescript.Parser.Token.{Token}

unfoldable pub is_digit : ℕ → Bool
is_digit c = leb b'0' c && leb c b'9'

unfoldable pub is_name_start : ℕ → Bool
is_name_start c = (leb b'a' c && leb c b'z') || (leb b'A' c && leb c b'Z') || c == b'$' || c == b'_'

unfoldable pub is_name_part : ℕ → Bool
is_name_part c =
    (leb b'a' c && leb c b'z') || (leb b'A' c && leb c b'Z') || is_digit c || c == b'$' || c == b'_'

-- The loop over the keywords.
unfoldable pub find_keyword : List (Bytes × Token) → Bytes → Option Token
find_keyword [] name = none
find_keyword ((word, token) ∷ rest) name =
    if str_eq word name then some token else find_keyword rest name
