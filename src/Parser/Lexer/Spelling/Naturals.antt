-- ===== src/Parser/Lexer/Spelling/Naturals.antt =====
-- The scan of numbers in the decimal notation.
use native.Mathlib.Nat.{pow-suc}
use gescript.Base.{
  ℕ, zero, suc, ◌+◌, ◌/◌, ◌%◌, ◌^◌, ◌<◌, ◌≡◌, ◌∙◌, refl, ap, true, false, ◌||◌, Option, some, [],
  ◌∷◌, ◌++◌, Bytes, ltb, ◌==◌, length, arith, Bool-cases, inl, inr, ltb→lt,
}
use gescript.Word.{is_neg}
use gescript.Decimal.{digits, format_nat, format_int, atoi}
use gescript.Decimal.RoundTrip.{atoi-format_int}
use gescript.Types.Value.{integer}
use gescript.Types.Convert.{Strconv}
use gescript.Parser.Lexer.Blank.{peek, count_while}
use gescript.Parser.Lexer.Name.{is_digit, is_name_part}
use gescript.Parser.Lexer.Number.{literal, integer_literal, decimal_literal, scan_number}
use gescript.Parser.Lexer.Spelling.{separates}
use gescript.Parser.Lexer.Spelling.Scans.{
  AllBytes, take-length_append, drop-length_append, count_while-AllBytes,
}

is_digit_lem : (d : ℕ) → d < 10 → is_digit (48 + d) ≡ true
unfolding is_digit
is_digit_lem d h = ground arith

digits-AllBytes :
    (k n : ℕ) (rest : Bytes) → AllBytes is_digit rest → AllBytes is_digit (digits k n rest)
unfolding digits
digits-AllBytes zero n rest h = h
digits-AllBytes (suc k) n rest h = elim (Bool-cases (ltb n 10)) [
  | inl small ↦ rw small (is_digit_lem n (ltb→lt n 10 small), h)
  | inr big ↦
      rw big
        (digits-AllBytes k (n / 10) ((48 + n % 10) ∷ rest) (is_digit_lem (n % 10) (omega arith), h))
]

digits_first :
    (k n : ℕ) (rest : Bytes)
    → 0 < n
    → n < 10 ^ k
    → (d : ℕ) × (s : Bytes) × (digits k n rest ≡ (48 + d) ∷ s) × (0 < d) × (d < 10)
unfolding digits
digits_first zero n rest p h = absurd (omega arith)
digits_first (suc k) n rest p h = elim (Bool-cases (ltb n 10)) [
  | inl small ↦ (n, rest, rw small refl, p, ltb→lt n 10 small)
  | inr big ↦
      let (d, s, e, q, l) =
        digits_first k (n / 10) ((48 + n % 10) ∷ rest) (ground arith)
          (omega (arith, pow-suc 10 k)) in
      (d, s, rw big e, q, l)
]

-- What a separator is not.
pub separates_lem :
    (c : ℕ)
    → separates c ≡ true
    → (is_name_part c ≡ false)
      × (is_digit c ≡ false)
      × ((c == b'.' || c == b'e' || c == b'E') ≡ false)
      × ((c == b'x' || c == b'X') ≡ false)
unfolding separates is_name_part is_digit
separates_lem c h = (ground arith, ground arith, ground arith, ground arith)

integer_literal-some :
    (s : Bytes) (n : ℕ) → atoi s ≡ some n → integer_literal s ≡ literal (integer n) (length s)
unfolding integer_literal
integer_literal-some s n e = rw (e, integer_literal) refl

decimal_literal_lem :
    (c : Strconv) (s rest : Bytes) (n : ℕ)
    → separates (peek rest) ≡ true
    → atoi s ≡ some n
    → decimal_literal c (s ++ rest) (length s) ≡ literal (integer n) (length s)
unfolding decimal_literal
decimal_literal_lem c s rest n stop e =
    rw (drop-length_append s rest, (separates_lem (peek rest) stop).2, take-length_append s rest)
      (integer_literal-some s n e)

atoi-format_nat_small : (n : ℕ) → n < 2 ^ 63 → atoi (format_nat n) ≡ some n
unfolding format_int
atoi-format_nat_small n h =
    let positive : is_neg n ≡ false = ground arith in
    rw positive at (atoi-format_int n (omega arith))

scan_number_digit :
    (c : Strconv) (before : Option ℕ) (d : ℕ) (text : Bytes)
    → 0 < d
    → d < 10
    → scan_number c before ((48 + d) ∷ text)
      ≡ decimal_literal c ((48 + d) ∷ text) (count_while is_digit ((48 + d) ∷ text))
unfolding scan_number
scan_number_digit c before d text p l =
    let other : ((48 + d) == 48) ≡ false = ground arith in rw (other, is_digit_lem d l) refl

scan_number_zero :
    (c : Strconv) (before : Option ℕ) (rest : Bytes)
    → separates (peek rest) ≡ true
    → scan_number c before (48 ∷ rest) ≡ decimal_literal c (48 ∷ rest) 1
unfolding scan_number
scan_number_zero c before rest stop =
    let (name, digit, float, hex) = separates_lem (peek rest) stop in rw (hex, digit) refl

-- A text of digits that begins with none of value 0.
scan_number_text :
    (c : Strconv) (before : Option ℕ) (n d : ℕ) (s rest : Bytes)
    → 0 < d
    → d < 10
    → AllBytes is_digit ((48 + d) ∷ s)
    → atoi ((48 + d) ∷ s) ≡ some n
    → separates (peek rest) ≡ true
    → scan_number c before ((48 + d) ∷ s ++ rest) ≡ literal (integer n) (length ((48 + d) ∷ s))
scan_number_text c before n d s rest p l all value stop =
    scan_number_digit c before d (s ++ rest) p l
    ∙ ap (decimal_literal c ((48 + d) ∷ s ++ rest))
        (count_while-AllBytes is_digit ((48 + d) ∷ s) rest all (separates_lem (peek rest) stop).1)
    ∙ decimal_literal_lem c ((48 + d) ∷ s) rest n stop value

-- A natural number below 2 ^ 63 in decimal notation is read back.
pub scan_number-format_nat :
    (c : Strconv) (before : Option ℕ) (n : ℕ) (rest : Bytes)
    → n < 2 ^ 63
    → separates (peek rest) ≡ true
    → scan_number c before (format_nat n ++ rest) ≡ literal (integer n) (length (format_nat n))
unfolding format_nat
scan_number-format_nat c before zero rest h stop =
    scan_number_zero c before rest stop
    ∙ decimal_literal_lem c (48 ∷ []) rest 0 stop (atoi-format_nat_small 0 h)
scan_number-format_nat c before (suc n) rest h stop =
    let (d, s, e, p, l) = digits_first 20 (suc n) [] (omega arith) (omega arith) in
    let all = rw e at (digits-AllBytes 20 (suc n) [] tt) in
    let value = rw e at (atoi-format_nat_small (suc n) h) in
    rw e (scan_number_text c before (suc n) d s rest p l all value stop)
