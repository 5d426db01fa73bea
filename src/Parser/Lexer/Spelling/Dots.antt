-- ===== src/Parser/Lexer/Spelling/Dots.antt =====
-- The lexer on a number that begins with a dot.
use gescript.Base.{
  ℕ, zero, suc, ◌≡◌, ◌∙◌, refl, ap, true, Option, none, some, ◌∷◌, Bytes, take, get_elem?,
}
use gescript.Float.{Float}
use gescript.Types.Value.{number}
use gescript.Types.Convert.{Strconv}
use gescript.Parser.Token.{Lexer, text_at}
use gescript.Parser.Lexer.{
  slice_panic, reset, read_number, read_token, with_token, lex, byte_before,
}
use gescript.Parser.Lexer.Blank.{count_while}
use gescript.Parser.Lexer.Name.{is_digit, is_name_start}
use gescript.Parser.Lexer.Number.{
  literal, out_of_range, is_float_part, dot_literal, float_literal, scan_number,
}
use gescript.Parser.Lexer.Spelling.Lexemes.{valued, Reads, lex-token, lex-Reads}
use gescript.Parser.Lexer.Spelling.Words.{read_number-Reads}

read_token-dot :
    (c : Strconv) (lx : Lexer) (d : ℕ) (text : Bytes)
    → is_digit d ≡ true
    → read_token c lx b'.' (d ∷ text) ≡ read_number c lx (b'.' ∷ d ∷ text)
unfolding read_token is_name_start is_digit
read_token-dot c lx d text h = rw h refl

scan_number-dot :
    (c : Strconv) (before : Option ℕ) (d : ℕ) (text : Bytes)
    → scan_number c before (b'.' ∷ d ∷ text) ≡ dot_literal c before (b'.' ∷ d ∷ text)
unfolding scan_number is_digit
scan_number-dot c before d text = refl

dot_literal-some :
    (c : Strconv) (b : ℕ) (f : Float) (text : Bytes)
    → c.parse_float (b ∷ take (count_while is_float_part text) text) ≡ some f
    → dot_literal c (some b) text ≡ literal (number f) (count_while is_float_part text)
unfolding dot_literal float_literal
dot_literal-some c b f text h = rw (h, float_literal) refl

byte_before_lem :
    (lx : Lexer) (n : ℕ)
    → lx.offset ≡ n
    → byte_before lx ≡ elim n [ zero ↦ none | suc k ↦ get_elem? lx.source k ]
unfolding byte_before
byte_before_lem lx n o = rw (o, byte_before) refl

read_number-out_of_range :
    (c : Strconv) (lx : Lexer) (text : Bytes)
    → scan_number c (byte_before lx) text ≡ out_of_range
    → read_number c lx text ≡ slice_panic
unfolding read_number
read_number-out_of_range c lx text h = rw (h, read_number) refl

-- A number that begins with a dot at the front of the source: the slice of its text begins before
-- the source, and the lexer panics.
pub lex-dot_panics :
    (c : Strconv) (lx : Lexer) (d : ℕ) (text : Bytes)
    → lx.offset ≡ 0
    → text_at lx ≡ b'.' ∷ d ∷ text
    → is_digit d ≡ true
    → lex c lx ≡ slice_panic
unfolding dot_literal with_token
lex-dot_panics c lx d text o at h =
    lex-token c lx b'.' (d ∷ text) at refl
    ∙ ap (with_token lx.regex_valid) (
        read_token-dot c (reset lx) d text h
        ∙ read_number-out_of_range c (reset lx) (b'.' ∷ d ∷ text) (
            scan_number-dot c (byte_before (reset lx)) d text
            ∙ ap (λ b. dot_literal c b (b'.' ∷ d ∷ text)) (byte_before_lem (reset lx) 0 o)))

-- A number that begins with a dot behind another byte: what is parsed as its value begins with that
-- byte, which is no part of the token.
pub lex-dot_value :
    (c : Strconv) (lx : Lexer) (n b d : ℕ) (text : Bytes) (f : Float)
    → lx.offset ≡ suc n
    → get_elem? lx.source n ≡ some b
    → text_at lx ≡ b'.' ∷ d ∷ text
    → is_digit d ≡ true
    → c.parse_float (b ∷ take (count_while is_float_part (b'.' ∷ d ∷ text)) (b'.' ∷ d ∷ text))
      ≡ some f
    → Reads lx (count_while is_float_part (b'.' ∷ d ∷ text)) (valued (number f) lx.sym) (lex c lx)
lex-dot_value c lx n b d text f o g at h parsed =
    let before : byte_before (reset lx) ≡ some b = byte_before_lem (reset lx) (suc n) o ∙ g in
    lex-Reads c lx b'.' (d ∷ text) _ _ _ at refl (read_token-dot c (reset lx) d text h) (
      read_number-Reads c lx.regex_valid lx (b'.' ∷ d ∷ text) (number f) _ (
        scan_number-dot c (byte_before (reset lx)) d text
        ∙ ap (λ o. dot_literal c o (b'.' ∷ d ∷ text)) before
        ∙ dot_literal-some c b f (b'.' ∷ d ∷ text) parsed))
