-- ===== src/Parser/Lexer/Bounds/Tokens.antt =====
-- A round of the lexer against its source.
use gescript.Base.{
  ℕ, zero, suc, ◌+◌, ◌-◌, ◌≤◌, ◌≡◌, ◌∙◌, inl, refl, sym, ap, Bool, true, false, ◌&&◌, ◌||◌, Option,
  none, some, ◌∷◌, Bytes, ◌==◌, if◌then◌else◌, take, drop, length, and_right, get_elem?,
  get_elem?_of_lt, arith,
}
use gescript.Types.Value.{string}
use gescript.Types.Convert.{Strconv}
use gescript.Parser.Token.{
  Token, gtok_identifier, gtok_literal, gtok_template, gtok_regexp, gtok_case, Lexer, keywords,
  parsed_regexp,
}
use gescript.Parser.Lexer.{
  Lexed, lexed, slice_panic, move, add_lines, with_literal, error_at, Step, again, done,
  read_line_comment, read_block_comment, name_token, read_name, byte_before, read_number,
  read_string, read_regex, with_operator, read_operator, is_quote, read_token, step_at,
}
use gescript.Parser.Lexer.Blank.{peek, peek_next, count_while, block_comment}
use gescript.Parser.Lexer.Name.{is_digit, is_name_start, is_name_part, find_keyword}
use gescript.Parser.Lexer.Number.{
  NumberScan, literal, invalid_integer, invalid_float, out_of_range, scan_number,
}
use gescript.Parser.Lexer.Quoted.{
  unterminated_comment, integer_refused, float_refused, unterminated_regex, unrecognized_symbol,
  StringScan, closed, failed, scan_string, scan_regex,
}
use gescript.Parser.Lexer.Operators.{Operator, scan_operator}
use gescript.Parser.Lexer.Bounds.Scans.{
  count_while-le, count_while_pos, line_comment-le, block_comment-le, StringFits, RegexFits,
  scan_string-Fits, scan_regex-Fits, peek-cons,
}
use gescript.Parser.Lexer.Bounds.Symbols.{OperatorFits, scan_operator-Fits}
use gescript.Parser.Lexer.Bounds.Numbers.{
  NumberFits, scan_number-Fits, is_out_of_range, scan_number-in_range,
}
use gescript.Parser.Lexer.Bounds.Forward.{
  LexFits, StepFits, At, length-At, Advances-move, starts_with_dot,
}

no_byte-eq-start :
    (n : ℕ) (source : Bytes)
    → elim n [ zero ↦ none | suc m ↦ get_elem? source m ] ≡ none
    → n ≤ length source
    → n ≡ 0
no_byte-eq-start zero source e h = refl
no_byte-eq-start (suc n) source e h =
    let (v, f) = get_elem?_of_lt source n (omega arith) in absurd (cc)

digit_or_dot : (a b : Bool) → a ≡ false → (a || b) ≡ true → b ≡ true
digit_or_dot a b h e = ground arith

module _ (c : Strconv) (lx : Lexer) (ch : ℕ) (text : Bytes) (at : At lx ch text) where
  fits : (n : ℕ) → n ≤ suc (length text) → lx.offset + n ≤ length lx.source
  fits n h = omega (arith, length-At lx ch text at)

  keyword-Fits :
      (o : Option Token) (n : ℕ) (name : Bytes)
      → 1 ≤ n
      → n ≤ suc (length text)
      → LexFits lx (name_token lx n name o)
  unfolding name_token
  keyword-Fits none n name a b =
      Advances-move lx gtok_identifier n 0 _ refl refl (omega arith) a (fits n b)
  keyword-Fits (some gtok_case) n name a b =
      Advances-move lx gtok_case n 0 _ refl refl (omega arith) a (fits n b)
  keyword-Fits (some _) n name a b = Advances-move lx _ n 0 _ refl refl (omega arith) a (fits n b)

  read_name-Fits : is_name_part ch ≡ true → LexFits lx (read_name lx (ch ∷ text))
  unfolding read_name
  read_name-Fits h =
      let n = count_while is_name_part (ch ∷ text) in
      keyword-Fits (find_keyword keywords (take n (ch ∷ text))) n (take n (ch ∷ text))
        (count_while_pos is_name_part ch text h) (count_while-le is_name_part (ch ∷ text))

  string-Fits :
      (q : ℕ) (s : StringScan)
      → StringFits (length text) s
      → LexFits lx (elim s [
        | failed e lines ↦ error_at e (add_lines lines lx)
        | closed str n lines ↦
            lexed
              (if q == b'`' then gtok_template else gtok_literal)
              (with_literal (string str) (add_lines lines (move (suc n) lx)))
      ])
  string-Fits q (failed e lines) h = (refl, omega (arith, length-At lx ch text at), omega arith)
  string-Fits q (closed str n lines) (a, b) =
      Advances-move lx _ (suc n) lines _ refl refl refl (omega arith) (fits (suc n) (omega arith))

  read_string-Fits : (q : ℕ) → LexFits lx (read_string lx q text)
  unfolding read_string
  read_string-Fits q = string-Fits q (scan_string 0 q text) (scan_string-Fits 0 q text)

  regex-Fits :
      (o : Option ℕ)
      → RegexFits (length text) o
      → LexFits lx (elim o [
        | none ↦ error_at unterminated_regex (move 1 lx)
        | some n ↦
            lexed gtok_regexp
              (record (move (suc n) lx) { sym = record lx.sym { parse_type = parsed_regexp } })
      ])
  regex-Fits none h = (refl, omega (arith, length-At lx ch text at), omega arith)
  regex-Fits (some n) (a, b) =
      Advances-move lx gtok_regexp (suc n) 0 _ refl refl (omega arith) (omega arith)
        (fits (suc n) (omega arith))

  read_regex-Fits : LexFits lx (read_regex lx text)
  unfolding read_regex
  read_regex-Fits = regex-Fits (scan_regex false text) (scan_regex-Fits false text)

  operator-Fits :
      (o : Option Operator)
      → OperatorFits (suc (length text)) o
      → LexFits lx (elim o [
        | none ↦ error_at unrecognized_symbol lx
        | some op ↦ lexed op.token (with_operator op lx)
      ])
  unfolding with_operator
  operator-Fits none h = (refl, omega (arith, length-At lx ch text at), omega arith)
  operator-Fits (some op) (a, b) =
      Advances-move lx op.token op.width 0 _ refl refl (omega arith) a (fits op.width b)

  read_operator-Fits : LexFits lx (read_operator lx ch text)
  unfolding read_operator
  read_operator-Fits =
      operator-Fits (scan_operator ch (peek text) (peek_next text) (peek (drop 2 text)))
        (scan_operator-Fits ch text)

  number-Fits :
      (s : NumberScan)
      → NumberFits (suc (length text)) s
      → (is_out_of_range s ≡ true → (lx.offset ≡ 0) × (starts_with_dot lx.source ≡ true))
      → LexFits lx (elim s [
        | literal v n ↦ lexed gtok_literal (with_literal v (move n lx))
        | invalid_integer ↦ error_at integer_refused lx
        | invalid_float back ↦ error_at float_refused (record lx { offset = lx.offset - back })
        | out_of_range ↦ slice_panic
      ])
  number-Fits (literal v n) (a, b) o =
      Advances-move lx gtok_literal n 0 _ refl refl (omega arith) a (fits n b)
  number-Fits invalid_integer h o = (refl, omega (arith, length-At lx ch text at), omega arith)
  number-Fits (invalid_float back) h o = (refl, omega (arith, length-At lx ch text at), omega arith)
  number-Fits out_of_range h o = o refl

  read_number-Fits :
      (is_digit ch || (ch == b'.' && is_digit (peek text))) ≡ true
      → LexFits lx (read_number c lx (ch ∷ text))
  unfolding read_number byte_before
  read_number-Fits h =
      number-Fits (scan_number c (byte_before lx) (ch ∷ text))
        (scan_number-Fits c (byte_before lx) ch text h)
        λ out.
          let (no_byte, not_digit) = scan_number-in_range c (byte_before lx) ch text out in
          let first =
            no_byte-eq-start lx.offset lx.source no_byte (omega (arith, length-At lx ch text at)) in
          let whole : lx.source ≡ ch ∷ text = ap (λ n. drop n lx.source) (sym first) ∙ at in
          (first, ap starts_with_dot whole ∙ digit_or_dot (is_digit ch) _ not_digit h)

  LexFits-if :
      (b : Bool) (r s : Lexed)
      → (b ≡ true → LexFits lx r)
      → (b ≡ false → LexFits lx s)
      → LexFits lx (if b then r else s)
  LexFits-if true r s hr hs = hr refl
  LexFits-if false r s hr hs = hs refl

  StepFits-if :
      (b : Bool) (r s : Step)
      → (b ≡ true → StepFits lx r)
      → (b ≡ false → StepFits lx s)
      → StepFits lx (if b then r else s)
  StepFits-if true r s hr hs = hr refl
  StepFits-if false r s hr hs = hs refl

  name_start-part : is_name_start ch ≡ true → is_name_part ch ≡ true
  unfolding is_name_start is_name_part
  name_start-part h = ground arith

  read_token-Fits : LexFits lx (read_token c lx ch text)
  unfolding read_token
  read_token-Fits =
      LexFits-if (is_name_start ch) _ _ (λ h. read_name-Fits (name_start-part h))
        λ _.
          LexFits-if (is_digit ch || (ch == b'.' && is_digit (peek text))) _ _
            (λ h. read_number-Fits h)
            λ _.
              LexFits-if (is_quote ch) _ _ (λ _. read_string-Fits ch)
                λ _.
                  LexFits-if (lx.regex_valid && (ch == b'/')) _ _ (λ _. read_regex-Fits)
                    λ _. read_operator-Fits

  line_comment-Fits :
      (b : ℕ) (more : Bytes) → text ≡ b ∷ more → StepFits lx (read_line_comment lx more)
  unfolding read_line_comment
  line_comment-Fits b more e =
      let le = line_comment-le more in
      (refl, omega (arith, length-At lx ch text at, ap length e), omega arith, omega arith)

  closed-Fits :
      (is_closed : Bool) (n lines : ℕ)
      → lx.offset + (2 + (n + (if is_closed then 2 else 0))) ≤ length lx.source
      → StepFits lx (
          let after = add_lines lines (move (2 + n) lx) in
          if is_closed then again (move 2 after) else done (error_at unterminated_comment after))
  closed-Fits true n lines h = (refl, omega arith, omega arith, omega arith)
  closed-Fits false n lines h = (refl, omega arith, omega arith)

  block_comment-Fits :
      (b : ℕ) (more : Bytes) → text ≡ b ∷ more → StepFits lx (read_block_comment lx more)
  unfolding read_block_comment
  block_comment-Fits b more e =
      closed-Fits (block_comment more).0 (block_comment more).1.0 (block_comment more).1.1
        (omega (arith, length-At lx ch text at, ap length e, block_comment-le more))

  pub step_at-Fits : StepFits lx (step_at c lx ch text)
  unfolding step_at
  step_at-Fits =
      let here = length-At lx ch text at in
      StepFits-if (ch == 0) _ _
        (λ _. record {
          same_source = refl;
          in_source = omega arith;
          forward = omega arith;
          moves_on = inl refl;
          lines = omega arith;
        })
        λ _.
          StepFits-if (ch == b' ' || ch == b'\t') _ _
            (λ _. (refl, omega arith, omega arith, omega arith))
            λ _.
              StepFits-if (ch == b'\r' && (peek text == b'\n')) _ _
                (λ h.
                  let crlf : text ≡ b'\n' ∷ drop 1 text =
                    peek-cons text b'\n' (omega arith)
                      (and_right (ch == b'\r') (peek text == b'\n') h) in
                  (refl, omega (arith, ap length crlf), omega arith, omega arith))
                λ _.
                  StepFits-if (ch == b'\r' || ch == b'\n') _ _
                    (λ _. (refl, omega arith, omega arith, omega arith))
                    λ _.
                      StepFits-if (ch == b'/' && (peek text == b'/')) _ _
                        (λ h.
                          line_comment-Fits b'/' (drop 1 text)
                            (peek-cons text b'/' (omega arith) (and_right _ _ h)))
                        λ _.
                          StepFits-if (ch == b'/' && (peek text == b'*')) _ _
                            (λ h.
                              block_comment-Fits b'*' (drop 1 text)
                                (peek-cons text b'*' (omega arith) (and_right _ _ h)))
                            λ _. read_token-Fits
