-- ===== src/Parser/Lexer/Bounds/Numbers.antt =====
-- The length of a number, against the text that it is read from.
use gescript.Base.{
  ℕ, suc, ◌+◌, ◌≤◌, ◌≡◌, refl, Bool, true, false, ◌&&◌, ◌||◌, Option, none, some, [], ◌∷◌, Bytes,
  ◌==◌, if◌then◌else◌, take, drop, length, length-take, arith, Bool-cases, inl, inr,
}
use gescript.Decimal.{atoi}
use gescript.Types.Value.{integer, number}
use gescript.Types.Convert.{Strconv}
use gescript.Parser.Lexer.Blank.{peek, count_while}
use gescript.Parser.Lexer.Name.{is_digit}
use gescript.Parser.Lexer.Number.{
  NumberScan, literal, invalid_integer, invalid_float, out_of_range, is_hex, is_octal,
  is_float_part, radix_value, integer_literal, float_literal, decimal_literal, hex_literal,
  octal_literal, dot_literal, scan_number,
}
use gescript.Parser.Lexer.Bounds.Scans.{count_while-le, count_while_pos, length-drop_add}

-- The length of a literal, if the scan has one, is from 1 to `most`.
abbrev pub NumberFits : ℕ → NumberScan → Type 0
NumberFits most (literal v n) = (1 ≤ n) × (n ≤ most)
NumberFits most _ = Unit

NumberFits-option {ℓ} :
    {A : Type ℓ} (o : Option A) (most : ℕ) (s : NumberScan) (f : A → NumberScan)
    → NumberFits most s
    → ((a : A) → NumberFits most (f a))
    → NumberFits most (elim o [ none ↦ s | some a ↦ f a ])
NumberFits-option none most s f hs hf = hs
NumberFits-option (some a) most s f hs hf = hf a

integer_literal-Fits :
    (digits : Bytes) (most : ℕ)
    → 1 ≤ length digits
    → length digits ≤ most
    → NumberFits most (integer_literal digits)
unfolding integer_literal
integer_literal-Fits digits most a b =
    NumberFits-option (atoi digits) most invalid_integer (λ i. literal (integer i) (length digits))
      tt λ i. (a, b)

float_literal-Fits :
    (c : Strconv) (sval : Bytes) (n back most : ℕ)
    → 1 ≤ n
    → n ≤ most
    → NumberFits most (float_literal c sval n back)
unfolding float_literal
float_literal-Fits c sval n back most a b =
    NumberFits-option (c.parse_float sval) most (invalid_float back) (λ f. literal (number f) n) tt
      λ f. (a, b)

NumberFits-if :
    (b : Bool) (most : ℕ) (s t : NumberScan)
    → NumberFits most s
    → NumberFits most t
    → NumberFits most (if b then s else t)
NumberFits-if true most s t hs ht = hs
NumberFits-if false most s t hs ht = ht

length-take_le : (n : ℕ) (text : Bytes) → n ≤ length text → length (take n text) ≡ n
length-take_le n text h = omega (arith, length-take n text)

decimal_literal-Fits :
    (c : Strconv) (text : Bytes) (n : ℕ)
    → 1 ≤ n
    → n ≤ length text
    → NumberFits (length text) (decimal_literal c text n)
unfolding decimal_literal
decimal_literal-Fits c text n a b =
    let ch = peek (drop n text) in
    let k = count_while is_float_part (drop n text) in
    let le = count_while-le is_float_part (drop n text) in
    NumberFits-if (ch == b'.' || ch == b'e' || ch == b'E') (length text) _ _
      (float_literal-Fits c (take (n + k) text) (n + k) 0 (length text) (omega arith)
        (omega (arith, length-drop_add n text b)))
      (integer_literal-Fits (take n text) (length text) (omega (arith, length-take_le n text b))
        (omega (arith, length-take_le n text b)))

hex_literal-Fits : (x : ℕ) (text : Bytes) → NumberFits (suc (suc (length text))) (hex_literal text)
unfolding hex_literal
hex_literal-Fits x text =
    NumberFits-if (count_while is_hex text == 0) (suc (suc (length text))) _ _
      (integer_literal-Fits (b'0' ∷ []) (suc (suc (length text))) (omega arith) (omega arith))
      (omega arith, omega (arith, count_while-le is_hex text))

octal_literal-Fits : (text : Bytes) → NumberFits (suc (length text)) (octal_literal text)
unfolding octal_literal
octal_literal-Fits text = (omega arith, omega (arith, count_while-le is_octal text))

dot_literal-Fits :
    (c : Strconv) (before : Option ℕ) (text : Bytes)
    → 1 ≤ count_while is_float_part text
    → NumberFits (length text) (dot_literal c before text)
unfolding dot_literal
dot_literal-Fits c none text h = tt
dot_literal-Fits c (some b) text h =
    float_literal-Fits c _ (count_while is_float_part text) 1 (length text) h
      (count_while-le is_float_part text)

hex_start-Fits :
    (cs : Bytes)
    → (peek cs == b'x' || peek cs == b'X') ≡ true
    → NumberFits (suc (length cs)) (hex_literal (drop 1 cs))
hex_start-Fits [] h = absurd (ground arith)
hex_start-Fits (x ∷ cs) h = hex_literal-Fits x cs

is_float_part_dot : is_float_part b'.' ≡ true
unfolding is_float_part
is_float_part_dot = refl

-- A scan that begins at a digit or a dot.
pub scan_number-Fits :
    (c : Strconv) (before : Option ℕ) (ch : ℕ) (cs : Bytes)
    → (is_digit ch || (ch == b'.' && is_digit (peek cs))) ≡ true
    → NumberFits (suc (length cs)) (scan_number c before (ch ∷ cs))
unfolding scan_number
scan_number-Fits c before ch cs h = elim (Bool-cases (ch == b'0')) [
  | inl zero_first ↦ rw zero_first (elim (Bool-cases (peek cs == b'x' || peek cs == b'X')) [
    | inl x ↦ rw x (hex_start-Fits cs x)
    | inr nx ↦ rw nx (
        NumberFits-if (is_digit (peek cs)) (suc (length cs)) _ _ (octal_literal-Fits cs)
          (decimal_literal-Fits c (ch ∷ cs) 1 (omega arith) (omega arith)))
  ])
  | inr other ↦ rw other (elim (Bool-cases (is_digit ch)) [
    | inl d ↦ rw d (
        decimal_literal-Fits c (ch ∷ cs) (count_while is_digit (ch ∷ cs))
          (count_while_pos is_digit ch cs d) (count_while-le is_digit (ch ∷ cs)))
    | inr nd ↦ rw nd (
        dot_literal-Fits c before (ch ∷ cs) (
          count_while_pos is_float_part ch cs
            (let dot : ch ≡ b'.' = ground arith in rw dot is_float_part_dot)))
  ])
]

abbrev pub is_out_of_range : NumberScan → Bool
is_out_of_range out_of_range = true
is_out_of_range _ = false

option-in_range {ℓ} :
    {A : Type ℓ} (o : Option A) (s : NumberScan) (f : A → NumberScan)
    → is_out_of_range s ≡ false
    → ((a : A) → is_out_of_range (f a) ≡ false)
    → is_out_of_range (elim o [ none ↦ s | some a ↦ f a ]) ≡ false
option-in_range none s f hs hf = hs
option-in_range (some a) s f hs hf = hf a

integer_literal-in_range : (digits : Bytes) → is_out_of_range (integer_literal digits) ≡ false
unfolding integer_literal
integer_literal-in_range digits = option-in_range (atoi digits) _ _ refl λ i. refl

float_literal-in_range :
    (c : Strconv) (sval : Bytes) (n back : ℕ)
    → is_out_of_range (float_literal c sval n back) ≡ false
unfolding float_literal
float_literal-in_range c sval n back = option-in_range (c.parse_float sval) _ _ refl λ f. refl

in_range-if :
    (b : Bool) (s t : NumberScan)
    → is_out_of_range s ≡ false
    → is_out_of_range t ≡ false
    → is_out_of_range (if b then s else t) ≡ false
in_range-if true s t hs ht = hs
in_range-if false s t hs ht = ht

decimal_literal-in_range :
    (c : Strconv) (text : Bytes) (n : ℕ) → is_out_of_range (decimal_literal c text n) ≡ false
unfolding decimal_literal
decimal_literal-in_range c text n =
    in_range-if _ _ _ (float_literal-in_range c _ _ 0) (integer_literal-in_range (take n text))

hex_literal-in_range : (text : Bytes) → is_out_of_range (hex_literal text) ≡ false
unfolding hex_literal
hex_literal-in_range text =
    let n = count_while is_hex text in
    in_range-if (n == 0) (integer_literal (b'0' ∷ []))
      (literal (integer (radix_value 16 0 (take n text))) (n + 2))
      (integer_literal-in_range (b'0' ∷ [])) refl

octal_literal-in_range : (text : Bytes) → is_out_of_range (octal_literal text) ≡ false
unfolding octal_literal
octal_literal-in_range text = refl

dot_literal-in_range :
    (c : Strconv) (b : ℕ) (text : Bytes) → is_out_of_range (dot_literal c (some b) text) ≡ false
unfolding dot_literal
dot_literal-in_range c b text = float_literal-in_range c _ _ 1

-- Only a literal that begins with a dot can be out of range, where no byte is before it.
pub scan_number-in_range :
    (c : Strconv) (before : Option ℕ) (ch : ℕ) (cs : Bytes)
    → is_out_of_range (scan_number c before (ch ∷ cs)) ≡ true
    → (before ≡ none) × (is_digit ch ≡ false)
unfolding scan_number is_digit
scan_number-in_range c none ch cs h = ground (
  arith,
  hex_literal-in_range (drop 1 cs),
  octal_literal-in_range cs,
  decimal_literal-in_range c (ch ∷ cs) 1,
  decimal_literal-in_range c (ch ∷ cs) (count_while is_digit (ch ∷ cs)),
)
scan_number-in_range c (some b) ch cs h = ground (
  arith,
  hex_literal-in_range (drop 1 cs),
  octal_literal-in_range cs,
  decimal_literal-in_range c (ch ∷ cs) 1,
  decimal_literal-in_range c (ch ∷ cs) (count_while is_digit (ch ∷ cs)),
  dot_literal-in_range c b (ch ∷ cs),
)
