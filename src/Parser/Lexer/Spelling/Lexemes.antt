-- ===== src/Parser/Lexer/Spelling/Lexemes.antt =====
-- A token as it is written, and the lexer at its first byte.
use gescript.Base.{
  ℕ, suc, ◌+◌, ◌<◌, ◌^◌, ◌≡◌, ◌∙◌, ◌⊎◌, ap, Bool, true, not, ◌&&◌, ◌||◌, Option, none, some, List,
  [], ◌∷◌, ◌++◌, Bytes, ◌==◌, length, arith,
}
use gescript.Decimal.{format_nat}
use gescript.Types.Value.{DataType, integer, string}
use gescript.Types.Convert.{Strconv}
use gescript.Parser.Token.{
  Token, gtok_identifier, gtok_literal, parsed_identifier, parsed_literal, parsed_undefined, Sym,
  Lexer, text_at, keywords,
}
use gescript.Parser.Lexer.{
  Lexed, lexed, reset, Step, done, again, read_token, step_at, lex_step, lex_loop, raw_lex,
  with_token, lex,
}
use gescript.Parser.Lexer.Blank.{peek}
use gescript.Parser.Lexer.Name.{is_name_start, is_name_part, find_keyword}
use gescript.Parser.Lexer.Operators.{Operator}
use gescript.Parser.Lexer.Spelling.{quote_bytes}
use gescript.Parser.Lexer.Spelling.Scans.{AllBytes}
use gescript.Parser.Lexer.Spelling.Operators.{operators}

-- A token as it is written: a name or keyword, a natural number, a text, or an operator.
pub data Lexeme : Type 0 where
  name : Bytes → Lexeme
  natural : ℕ → Lexeme
  quoted : Bytes → Lexeme
  operator : Bytes → Operator → Lexeme

abbrev pub spell : Lexeme → Bytes
spell (name n) = n
spell (natural n) = format_nat n
spell (quoted s) = b'"' ∷ quote_bytes s ++ b'"' ∷ []
spell (operator text op) = text

abbrev pub IsOneOf : Bytes × Operator → List (Bytes × Operator) → Type 0
IsOneOf x [] = ⊥
IsOneOf x (y ∷ ys) = (x ≡ y) ⊎ IsOneOf x ys

abbrev pub IsName : Bytes → Type 0
IsName [] = ⊥
IsName (c ∷ cs) = (is_name_start c ≡ true) × AllBytes is_name_part cs

abbrev pub IsLexeme : Lexeme → Type 0
IsLexeme (name n) = IsName n
IsLexeme (natural n) = n < 2 ^ 63
IsLexeme (quoted s) = Unit
IsLexeme (operator text op) = IsOneOf (text, op) operators

-- The symbol that a token leaves.
abbrev pub named : Bytes → Option Token → Sym → Sym
named n none s = record s {
  token = gtok_identifier;
  parse_type = parsed_identifier;
  identifier = n;
}
named n (some t) s = record s { token = t; parse_type = parsed_undefined }

abbrev pub valued : DataType → Sym → Sym
valued v s = record s { token = gtok_literal; parse_type = parsed_literal; literal = v }

abbrev pub operated : Operator → Sym → Sym
operated op s = record s {
  token = op.token;
  parse_type = parsed_undefined;
  assign_op = elim op.assign_op [ none ↦ s.assign_op | some t ↦ t ];
}

abbrev pub symbol_of : Lexeme → Sym → Sym
symbol_of (name n) s = named n (find_keyword keywords n) s
symbol_of (natural n) s = valued (integer n) s
symbol_of (quoted str) s = valued (string str) s
symbol_of (operator text op) s = operated op s

-- A token of `n` bytes was read, and left this symbol.
pub record Reads (lx : Lexer) (n : ℕ) (s : Sym) (r : Lexed) : Type 0 where
  pub after : Lexer
  pub returned : r ≡ lexed s.token after
  pub symbol : after.sym ≡ s
  pub place : after.offset ≡ lx.offset + n
  pub source : after.source ≡ lx.source
  pub line : after.line_number ≡ lx.line_number

-- Where a token begins: no blank, no line end, no comment.
abbrev pub starts_token : ℕ → ℕ → Bool
starts_token c n = not (
    c == 0
    || c == b' '
    || c == b'\t'
    || c == b'\r'
    || c == b'\n'
    || (c == b'/' && (n == b'/' || n == b'*')))

step_at-token :
    (c : Strconv) (lx : Lexer) (ch : ℕ) (text : Bytes)
    → starts_token ch (peek text) ≡ true
    → step_at c lx ch text ≡ done (read_token c lx ch text)
unfolding step_at
step_at-token c lx ch text h = ground arith

lex_loop-done :
    (c : Strconv) (k : ℕ) (lx : Lexer) (text : Bytes) (r : Lexed)
    → text_at lx ≡ text
    → lex_step c lx text ≡ done r
    → lex_loop c (suc k) lx ≡ r
unfolding lex_loop
lex_loop-done c k lx text r at e =
    ap (λ (s : Step). elim s [ done t ↦ t | again after ↦ lex_loop c k after ])
      (ap (lex_step c lx) at ∙ e)

pub lex-token :
    (c : Strconv) (lx : Lexer) (ch : ℕ) (text : Bytes)
    → text_at lx ≡ ch ∷ text
    → starts_token ch (peek text) ≡ true
    → lex c lx ≡ with_token lx.regex_valid (read_token c (reset lx) ch text)
unfolding lex raw_lex lex_step
lex-token c lx ch text at h = ap (with_token lx.regex_valid) (
    lex_loop-done c (length (text_at lx)) (reset lx) (ch ∷ text) (read_token c (reset lx) ch text)
      at (step_at-token c (reset lx) ch text h))

pub lex-Reads :
    (c : Strconv) (lx : Lexer) (ch : ℕ) (text : Bytes) (n : ℕ) (s : Sym) (r : Lexed)
    → text_at lx ≡ ch ∷ text
    → starts_token ch (peek text) ≡ true
    → read_token c (reset lx) ch text ≡ r
    → Reads lx n s (with_token lx.regex_valid r)
    → Reads lx n s (lex c lx)
lex-Reads c lx ch text n s r at h e reads = rw (lex-token c lx ch text at h, e) reads
