-- ===== src/Parser/Lexer/Spelling.antt =====
-- Texts of tokens, as a writer of scripts would write them, to compare the lexer with.
pub mod Operators
pub mod Scans
pub mod Naturals
pub mod Lexemes
pub mod Words
pub mod Symbols
pub mod RoundTrip
pub mod Dots
use gescript.Base.{
  ℕ, zero, suc, ◌+◌, ◌-◌, ◌<◌, ◌≤◌, ◌≡◌, refl, Bool, true, false, not, ◌&&◌, ◌||◌, List, [], ◌∷◌,
  ◌++◌, Bytes, codes, ◌==◌, if◌then◌else◌,
}
use gescript.Parser.Lexer.Name.{is_name_part}

-- A byte that can make an operator longer, or a number.
abbrev pub continues : ℕ → Bool
continues c =
    c == b'='
    || c == b'<'
    || c == b'>'
    || c == b'+'
    || c == b'-'
    || c == b'&'
    || c == b'|'
    || c == b'~'
    || c == b'.'
    || c == b'/'
    || c == b'*'

-- A byte that ends whatever token stands before it.
unfoldable pub separates : ℕ → Bool
separates c = not (is_name_part c) && not (continues c)

-- A byte in a literal with double quotes.
unfoldable pub quote_byte : ℕ → Bytes
quote_byte c =
    if c == b'"' || c == b'\\'
    then b'\\' ∷ c ∷ []
    else if c == 10
    then codes "\\n"
    else if c == 13
    then codes "\\x0D"
    else if c == 0
    then codes "\\x00"
    else c ∷ []

unfoldable pub quote_bytes : Bytes → Bytes
quote_bytes [] = []
quote_bytes (c ∷ cs) = quote_byte c ++ quote_bytes cs
