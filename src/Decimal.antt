-- ===== src/Decimal.antt =====
-- strconv.FormatInt(i, 10), fmt.Sprintf("%d", i) and strconv.Atoi, with which the engine turns an
-- index into a property name and back (types/util.go, internal/engine/operations.go).
pub mod RoundTrip
use gescript.Base.{
  ℕ, zero, suc, ◌+◌, ◌-◌, ◌*◌, ◌/◌, ◌%◌, ◌^◌, Bool, true, false, ◌&&◌, Option, none, some, [], ◌∷◌,
  Bytes, ltb, leb, ◌==◌, if◌then◌else◌,
}
use gescript.Word.{Word, is_neg}

-- The digits of `n` in front of `rest`; the first argument bounds how many there are.
unfoldable pub digits : ℕ → ℕ → Bytes → Bytes
digits zero n rest = rest
digits (suc k) n rest =
    let more = digits k (n / 10) ((48 + n % 10) ∷ rest) in
    if ltb n 10 then (48 + n) ∷ rest else more

-- An int64 has at most 20 digits.
unfoldable pub format_nat : ℕ → Bytes
unfolding digits
format_nat n = digits 20 n []

unfoldable pub format_int : Word → Bytes
unfolding format_nat
format_int w = if is_neg w then b'-' ∷ format_nat (2 ^ 64 - w) else format_nat w

unfoldable pub parse_digits : ℕ → Bytes → Option ℕ
parse_digits n [] = some n
parse_digits n (c ∷ s) =
    let rest = parse_digits (n * 10 + (c - 48)) s in if leb b'0' c && leb c b'9' then rest else none

-- The range of an int.
signed_word : Bool → ℕ → Option Word
signed_word true n = if leb n (2 ^ 63) then some ((2 ^ 64 - n) % 2 ^ 64) else none
signed_word false n = if ltb n (2 ^ 63) then some n else none

parse_signed : Bool → Bytes → Option Word
parse_signed negative [] = none
parse_signed negative (c ∷ s) = elim (parse_digits 0 (c ∷ s)) [
  | none ↦ none
  | some n ↦ signed_word negative n
]

-- strconv.Atoi; `none` is an error.
unfoldable pub atoi : Bytes → Option Word
unfolding parse_signed parse_digits signed_word
atoi [] = none
atoi (c ∷ s) =
    if c == b'-'
    then parse_signed true s
    else if c == b'+'
    then parse_signed false s
    else parse_signed false (c ∷ s)
