-- ===== src/Parser/Lexer/Spelling/Words.antt =====
-- The lexer on names, keywords, numbers and texts.
use gescript.Base.{
  ℕ, suc, ◌+◌, ◌<◌, ◌^◌, ◌≡◌, ◌∙◌, refl, sym, ap, Bool, true, false, Option, none, some, [], ◌∷◌,
  ◌++◌, Bytes, length, arith, length-append,
}
use gescript.Decimal.{format_nat, digits}
use gescript.Decimal.RoundTrip.{digits_head}
use gescript.Types.Value.{DataType, integer, string}
use gescript.Types.Convert.{Strconv}
use gescript.Parser.Token.{Token, gtok_case, Lexer, text_at, keywords}
use gescript.Parser.Lexer.{
  reset, name_token, read_name, read_number, read_string, read_token, set_token, with_token, lex,
  byte_before,
}
use gescript.Parser.Lexer.Blank.{peek}
use gescript.Parser.Lexer.Name.{is_digit, is_name_start, is_name_part, find_keyword}
use gescript.Parser.Lexer.Number.{literal, scan_number}
use gescript.Parser.Lexer.Spelling.{separates, quote_bytes}
use gescript.Parser.Lexer.Spelling.Scans.{
  AllBytes, take-length_append, count_while-AllBytes, scan_string-quote_bytes,
}
use gescript.Parser.Lexer.Spelling.Naturals.{separates_lem, scan_number-format_nat}
use gescript.Parser.Lexer.Spelling.Lexemes.{
  quoted, spell, IsName, named, valued, Reads, starts_token, lex-Reads,
}

name_token-Reads :
    (valid : Bool) (lx : Lexer) (o : Option Token) (n : ℕ) (word : Bytes)
    → Reads lx n (named word o lx.sym) (with_token valid (name_token (reset lx) n word o))
unfolding with_token set_token name_token
name_token-Reads valid lx none n word = record {
  after = _;
  returned = refl;
  symbol = refl;
  place = refl;
  source = refl;
  line = refl;
}
name_token-Reads valid lx (some gtok_case) n word = record {
  after = _;
  returned = refl;
  symbol = refl;
  place = refl;
  source = refl;
  line = refl;
}
name_token-Reads valid lx (some _) n word = record {
  after = _;
  returned = refl;
  symbol = refl;
  place = refl;
  source = refl;
  line = refl;
}

read_name-Reads :
    (valid : Bool) (lx : Lexer) (n rest : Bytes)
    → AllBytes is_name_part n
    → separates (peek rest) ≡ true
    → Reads lx
        (length n)
        (named n (find_keyword keywords n) lx.sym)
        (with_token valid (read_name (reset lx) (n ++ rest)))
unfolding read_name
read_name-Reads valid lx n rest all stop =
    rw
      (
        count_while-AllBytes is_name_part n rest all (separates_lem (peek rest) stop).0,
        take-length_append n rest,
      )
      (name_token-Reads valid lx (find_keyword keywords n) (length n) n)

name_start-token : (c m : ℕ) → is_name_start c ≡ true → starts_token c m ≡ true
unfolding is_name_start
name_start-token c m h = ground arith

read_token-name :
    (c : Strconv) (lx : Lexer) (ch : ℕ) (text : Bytes)
    → is_name_start ch ≡ true
    → read_token c lx ch text ≡ read_name lx (ch ∷ text)
unfolding read_token
read_token-name c lx ch text h = rw h refl

digit-token : (c m : ℕ) → is_digit c ≡ true → (starts_token c m ≡ true) × (is_name_start c ≡ false)
unfolding is_digit is_name_start
digit-token c m h = (ground arith, ground arith)

read_token-number :
    (c : Strconv) (lx : Lexer) (ch : ℕ) (text : Bytes)
    → is_digit ch ≡ true
    → read_token c lx ch text ≡ read_number c lx (ch ∷ text)
unfolding read_token
read_token-number c lx ch text h = rw ((digit-token ch 0 h).1, h) refl

pub read_number-Reads :
    (c : Strconv) (valid : Bool) (lx : Lexer) (text : Bytes) (v : DataType) (n : ℕ)
    → scan_number c (byte_before (reset lx)) text ≡ literal v n
    → Reads lx n (valued v lx.sym) (with_token valid (read_number c (reset lx) text))
unfolding read_number with_token set_token
read_number-Reads c valid lx text v n e =
    rw (e, read_number)
      (record {
        after = _;
        returned = refl;
        symbol = refl;
        place = refl;
        source = refl;
        line = refl;
      })

format_nat-cons : (n : ℕ) → (d : ℕ) × (s : Bytes) × (format_nat n ≡ (48 + d) ∷ s) × (d < 10)
unfolding format_nat digits
format_nat-cons n = digits_head 19 n []

quote-token : (m : ℕ) → starts_token b'"' m ≡ true
quote-token m = refl

read_token-string :
    (c : Strconv) (lx : Lexer) (text : Bytes) → read_token c lx b'"' text ≡ read_string lx b'"' text
unfolding read_token is_name_start is_digit
read_token-string c lx text = refl

read_string-Reads :
    (valid : Bool) (lx : Lexer) (s rest : Bytes)
    → Reads lx
        (suc (suc (length (quote_bytes s))))
        (valued (string s) lx.sym)
        (with_token valid (read_string (reset lx) b'"' (quote_bytes s ++ b'"' ∷ rest)))
unfolding read_string with_token set_token
read_string-Reads valid lx s rest =
    rw (scan_string-quote_bytes s rest, read_string)
      (record {
        after = _;
        returned = refl;
        symbol = refl;
        place = refl;
        source = refl;
        line = omega arith;
      })

name_start-part : (c : ℕ) → is_name_start c ≡ true → is_name_part c ≡ true
unfolding is_name_start is_name_part
name_start-part c h = ground arith

pub lex-name :
    (c : Strconv) (lx : Lexer) (n rest : Bytes)
    → IsName n
    → text_at lx ≡ n ++ rest
    → separates (peek rest) ≡ true
    → Reads lx (length n) (named n (find_keyword keywords n) lx.sym) (lex c lx)
lex-name c lx [] rest h at stop = elim h [ ]
lex-name c lx (ch ∷ n) rest (h, all) at stop =
    lex-Reads c lx ch (n ++ rest) _ _ _ at (name_start-token ch (peek (n ++ rest)) h)
      (read_token-name c (reset lx) ch (n ++ rest) h)
      (read_name-Reads lx.regex_valid lx (ch ∷ n) rest (name_start-part ch h, all) stop)

is_digit-lt : (d : ℕ) → d < 10 → is_digit (48 + d) ≡ true
unfolding is_digit
is_digit-lt d h = ground arith

pub lex-natural :
    (c : Strconv) (lx : Lexer) (n : ℕ) (rest : Bytes)
    → n < 2 ^ 63
    → text_at lx ≡ format_nat n ++ rest
    → separates (peek rest) ≡ true
    → Reads lx (length (format_nat n)) (valued (integer n) lx.sym) (lex c lx)
lex-natural c lx n rest small at stop =
    let (d, s, e, h) = format_nat-cons n in
    let digit : is_digit (48 + d) ≡ true = is_digit-lt d h in
    let at' : text_at lx ≡ (48 + d) ∷ s ++ rest = at ∙ ap (λ t. t ++ rest) e in
    lex-Reads c lx (48 + d) (s ++ rest) _ _ _ at' (digit-token (48 + d) (peek (s ++ rest)) digit).0
      (read_token-number c (reset lx) (48 + d) (s ++ rest) digit)
      (read_number-Reads c lx.regex_valid lx ((48 + d) ∷ s ++ rest) (integer n)
        (length (format_nat n))
        (ap (λ t. scan_number c (byte_before (reset lx)) (t ++ rest)) (sym e)
          ∙ scan_number-format_nat c (byte_before (reset lx)) n rest small stop))

pub length-quoted : (s : Bytes) → length (spell (quoted s)) ≡ suc (suc (length (quote_bytes s)))
length-quoted s = omega (arith, length-append (quote_bytes s) (b'"' ∷ []))

pub lex-quoted :
    (c : Strconv) (lx : Lexer) (s rest : Bytes)
    → text_at lx ≡ b'"' ∷ quote_bytes s ++ b'"' ∷ rest
    → Reads lx (suc (suc (length (quote_bytes s)))) (valued (string s) lx.sym) (lex c lx)
lex-quoted c lx s rest at =
    lex-Reads c lx b'"' (quote_bytes s ++ b'"' ∷ rest) _ _ _ at refl
      (read_token-string c (reset lx) (quote_bytes s ++ b'"' ∷ rest))
      (read_string-Reads lx.regex_valid lx s rest)
