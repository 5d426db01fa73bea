-- ===== src/Parser/Lexer/Number.antt =====
-- Numeric literals (_lex of internal/parser/lexer.go).
use gescript.Base.{
  ℕ, ◌+◌, ◌-◌, ◌*◌, ◌%◌, ◌^◌, Bool, ◌&&◌, ◌||◌, Option, none, some, [], ◌∷◌, Bytes, leb, ◌==◌,
  if◌then◌else◌, take, drop, length,
}
use gescript.Decimal.{atoi}
use gescript.Types.Value.{DataType, integer, number}
use gescript.Types.Convert.{Strconv}
use gescript.Parser.Lexer.Blank.{peek, count_while}
use gescript.Parser.Lexer.Name.{is_digit}

unfoldable pub is_hex : ℕ → Bool
unfolding is_digit
is_hex c = is_digit c || (leb b'a' c && leb c b'f') || (leb b'A' c && leb c b'F')

unfoldable pub hex_to_int : ℕ → ℕ
unfolding is_digit
hex_to_int c =
    if is_digit c
    then c - 48
    else if leb b'a' c && leb c b'f'
    then c - 87
    else if leb b'A' c && leb c b'F'
    then c - 55
    else 0

unfoldable pub is_octal : ℕ → Bool
is_octal c = leb b'0' c && leb c b'7'

unfoldable pub is_float_part : ℕ → Bool
unfolding is_digit
is_float_part c = is_digit c || c == b'.' || c == b'e' || c == b'E' || c == b'-' || c == b'+'

-- ival<<4 | hexToInt(ch) and ival<<3 | (ch - 48) of an int64, over the digits.
unfoldable pub radix_value : ℕ → ℕ → Bytes → ℕ
radix_value radix ival [] = ival
radix_value radix ival (c ∷ cs) = radix_value radix ((ival * radix + hex_to_int c) % 2 ^ 64) cs

-- What a number is read as: its value and length; a text that strconv refuses, whose first byte is
-- that many bytes before the number; or a slice that begins before the source.
pub data NumberScan : Type 0 where
  literal : DataType → ℕ → NumberScan
  invalid_integer : NumberScan
  invalid_float : ℕ → NumberScan
  out_of_range : NumberScan

-- strconv.ParseInt(sval, 10, 64) on digits, and strconv.ParseFloat(sval, 64)
unfoldable pub integer_literal : Bytes → NumberScan
integer_literal digits = elim (atoi digits) [
  | none ↦ invalid_integer
  | some i ↦ literal (integer i) (length digits)
]

unfoldable pub float_literal : Strconv → Bytes → ℕ → ℕ → NumberScan
float_literal c sval n back = elim (c.parse_float sval) [
  | none ↦ invalid_float back
  | some f ↦ literal (number f) n
]

-- A decimal literal whose first `n` bytes are its digits.
unfoldable pub decimal_literal : Strconv → Bytes → ℕ → NumberScan
decimal_literal c text n =
    let ch = peek (drop n text) in
    let m = n + count_while is_float_part (drop n text) in
    if ch == b'.' || ch == b'e' || ch == b'E'
    then float_literal c (take m text) m 0
    else integer_literal (take n text)

-- Behind a `0x`; with no digit the literal is the 0 alone.
unfoldable pub hex_literal : Bytes → NumberScan
hex_literal text =
    let n = count_while is_hex text in
    if n == 0
    then integer_literal (b'0' ∷ [])
    else literal (integer (radix_value 16 0 (take n text))) (n + 2)

-- Behind a 0 that a digit follows; an 8 or 9 is not part of it.
unfoldable pub octal_literal : Bytes → NumberScan
octal_literal text =
    let n = count_while is_octal text in literal (integer (radix_value 8 0 (take n text))) (n + 1)

-- A literal that begins with a dot: ctx.offset is one less, so that the text that is parsed begins
-- with the byte before the dot.
unfoldable pub dot_literal : Strconv → Option ℕ → Bytes → NumberScan
dot_literal c none text = out_of_range
dot_literal c (some before) text =
    let n = count_while is_float_part text in float_literal c (before ∷ take n text) n 1

-- The literal at the front of a text, with the byte before it.
unfoldable pub scan_number : Strconv → Option ℕ → Bytes → NumberScan
scan_number c before [] = out_of_range
scan_number c before (ch ∷ cs) =
    if ch == b'0'
    then (if peek cs == b'x' || peek cs == b'X'
        then hex_literal (drop 1 cs)
        else if is_digit (peek cs)
        then octal_literal cs
        else decimal_literal c (ch ∷ cs) 1)
    else if is_digit ch
    then decimal_literal c (ch ∷ cs) (count_while is_digit (ch ∷ cs))
    else dot_literal c before (ch ∷ cs)
