-- ===== src/Parser/Lexer/Quoted.antt =====
-- String and template literals and regular expressions (_lex of internal/parser/lexer.go).
use gescript.Base.{
  ℕ, zero, suc, ◌+◌, ◌-◌, ◌*◌, ◌/◌, ◌%◌, Bool, true, false, not, ◌&&◌, ◌||◌, Option, none, some, [],
  ◌∷◌, ◌++◌, Bytes, ltb, leb, ◌==◌, if◌then◌else◌,
}
use gescript.Parser.Lexer.Blank.{peek, peek_next}
use gescript.Parser.Lexer.Number.{is_hex, hex_to_int, is_octal}

-- The errors of _lex.
pub data LexError : Type 0 where
  unterminated_comment integer_refused float_refused newline_in_string unterminated_string :
      LexError
  invalid_hex invalid_unicode invalid_escape unterminated_regex unrecognized_symbol : LexError

-- string(wch), the UTF-8 of a rune below 65536; a surrogate half becomes U+FFFD.
unfoldable pub utf8 : ℕ → Bytes
utf8 r =
    if ltb r 128
    then r ∷ []
    else if ltb r 2048
    then (192 + r / 64) ∷ (128 + r % 64) ∷ []
    else if leb 55296 r && ltb r 57344
    then 239 ∷ 191 ∷ 189 ∷ []
    else (224 + r / 4096) ∷ (128 + r / 64 % 64) ∷ (128 + r % 64) ∷ []

-- What stands behind a backslash: the bytes that it adds, its length, and the lines that it ends.
pub data Escape : Type 0 where
  escaped : Bytes → ℕ → ℕ → Escape
  bad_escape : LexError → Escape

unfoldable pub hex_escape : Bytes → Escape
hex_escape (a ∷ b ∷ rest) =
    if is_hex a && is_hex b
    then escaped (utf8 (hex_to_int a * 16 + hex_to_int b)) 3 0
    else bad_escape invalid_hex
hex_escape _ = bad_escape invalid_hex

unfoldable pub unicode_escape : Bytes → Escape
unicode_escape (a ∷ b ∷ c ∷ d ∷ rest) =
    if is_hex a && is_hex b && is_hex c && is_hex d
    then escaped
        (utf8 (hex_to_int a * 4096 + hex_to_int b * 256 + hex_to_int c * 16 + hex_to_int d)) 5 0
    else bad_escape invalid_unicode
unicode_escape _ = bad_escape invalid_unicode

-- One to three octal digits, the first of them `a`.
unfoldable pub octal_escape : ℕ → Bytes → Escape
octal_escape a rest =
    let b = peek rest in
    let c = peek_next rest in
    if not (is_octal b)
    then escaped (utf8 (a - 48)) 1 0
    else if not (is_octal c)
    then escaped (utf8 ((a - 48) * 8 + (b - 48))) 2 0
    else escaped (utf8 (((a - 48) * 8 + (b - 48)) * 8 + (c - 48))) 3 0

-- The escapes of one letter.
unfoldable pub escape_letter : ℕ → Option ℕ
escape_letter c =
    if c == b'b'
    then some 8
    else if c == b'f'
    then some 12
    else if c == b'n'
    then some 10
    else if c == b't'
    then some 9
    else if c == b'v'
    then some 11
    else if c == b'\\' || c == b'\'' || c == b'"'
    then some c
    else none

-- The switch on the byte behind the backslash. An escaped line end adds the space that wch holds.
unfoldable pub scan_escape : Bytes → Escape
scan_escape [] = bad_escape invalid_escape
scan_escape (c ∷ rest) = elim (escape_letter c) [
  | some wch ↦ escaped (utf8 wch) 1 0
  | none ↦
      if c == b'\r'
      then escaped (b' ' ∷ []) (if peek rest == b'\n' then 2 else 1) 1
      else if c == b'\n'
      then escaped (b' ' ∷ []) 1 1
      else if c == b'x' || c == b'X'
      then hex_escape rest
      else if c == b'u' || c == b'U'
      then unicode_escape rest
      else if is_octal c
      then octal_escape c rest
      else bad_escape invalid_escape
]

-- A literal behind its quote: its bytes, its length with the closing quote, and the line ends that
-- were counted; or an error, with those before it.
pub data StringScan : Type 0 where
  closed : Bytes → ℕ → ℕ → StringScan
  failed : LexError → ℕ → StringScan

-- One more step of the loop in front: the bytes that it adds and the lines that it ends.
unfoldable pub before_scan : Bytes → ℕ → StringScan → StringScan
before_scan bytes lines (closed str n more) = closed (bytes ++ str) (suc n) (lines + more)
before_scan bytes lines (failed e more) = failed e (lines + more)

-- The loop up to the quote `q`; the first number is how much of an escape is left to go over.
unfoldable pub scan_string : ℕ → ℕ → Bytes → StringScan
scan_string k q [] = failed unterminated_string 0
scan_string (suc k) q (c ∷ cs) = before_scan [] 0 (scan_string k q cs)
scan_string zero q (c ∷ cs) =
    let plain = before_scan (c ∷ []) 0 (scan_string zero q cs) in
    let special : StringScan = elim (scan_escape cs) [
      | bad_escape e ↦ failed e 0
      | escaped bytes n lines ↦ before_scan bytes lines (scan_string n q cs)
    ] in
    if c == q
    then closed [] 1 0
    else if not (q == b'`') && (c == b'\r' || c == b'\n')
    then failed newline_in_string 0
    else if c == 0
    then failed unterminated_string 0
    else if c == b'\\'
    then special
    else plain

-- A regular expression behind its slash: its length with the closing one. The flag is set behind a
-- backslash.
unfoldable pub scan_regex : Bool → Bytes → Option ℕ
scan_regex skip [] = none
scan_regex true (c ∷ cs) = elim (scan_regex false cs) [ none ↦ none | some n ↦ some (suc n) ]
scan_regex false (c ∷ cs) =
    let further : Option ℕ = elim (scan_regex (c == b'\\' && not (peek cs == 0)) cs) [
      | none ↦ none
      | some n ↦ some (suc n)
    ] in
    if c == b'/' then some 1 else if c == b'\r' || c == b'\n' || c == 0 then none else further
