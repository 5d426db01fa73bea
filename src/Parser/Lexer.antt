-- ===== src/Parser/Lexer.antt =====
-- The scanner of internal/parser/lexer.go: _lex and lex.
pub mod Blank
pub mod Name
pub mod Number
pub mod Quoted
pub mod Operators
pub mod Bounds
pub mod Spelling
use gescript.Base.{
  ℕ, zero, suc, ◌+◌, ◌-◌, Bool, true, false, not, ◌&&◌, ◌||◌, Option, none, some, List, [], ◌∷◌,
  Bytes, ◌==◌, if◌then◌else◌, take, drop, length, get_elem?,
}
use gescript.Types.Value.{DataType, string}
use gescript.Types.Convert.{Strconv}
use gescript.Parser.Token.{
  Token, gtok_eof, gtok_identifier, gtok_literal, gtok_template, gtok_regexp, gtok_error, gtok_case,
  ParseType, parsed_undefined, parsed_identifier, parsed_literal, parsed_regexp, Sym, Lexer,
  text_at, keywords,
}
use gescript.Parser.Lexer.Blank.{peek, peek_next, count_while, line_comment, block_comment}
use gescript.Parser.Lexer.Name.{is_digit, is_name_start, is_name_part, find_keyword}
use gescript.Parser.Lexer.Number.{
  NumberScan, literal, invalid_integer, invalid_float, out_of_range, scan_number,
}
use gescript.Parser.Lexer.Quoted.{
  LexError, unterminated_comment, integer_refused, float_refused, unterminated_regex,
  unrecognized_symbol, StringScan, closed, failed, scan_string, scan_regex,
}
use gescript.Parser.Lexer.Operators.{Operator, scan_operator}

-- How _lex ends: a token; an error with its line, where the token is gtok_error; a slice that
-- begins before the source, which panics; or the bound on the rounds of its loop is reached.
pub data Lexed : Type 0 where
  lexed : Token → Lexer → Lexed
  lex_error : LexError → ℕ → Lexer → Lexed
  slice_panic out_of_fuel : Lexed

-- newLexer(source)
unfoldable pub new_lexer : Sym → Bytes → Lexer
new_lexer sym source = record {
  source = source;
  offset = 0;
  line_number = 1;
  regex_valid = false;
  sym = sym;
}

-- ctx.offset += n
abbrev pub move : ℕ → Lexer → Lexer
move n lx = record lx { offset = lx.offset + n }

abbrev pub add_lines : ℕ → Lexer → Lexer
add_lines n lx = record lx { line_number = lx.line_number + n }

-- lval.parseType and lval.literal
abbrev pub with_literal : DataType → Lexer → Lexer
with_literal v lx = record lx { sym = record lx.sym { parse_type = parsed_literal; literal = v } }

abbrev error_at : LexError → Lexer → Lexed
error_at e lx = lex_error e lx.line_number lx

-- One round of the loop: on to the next, or the end.
pub data Step : Type 0 where
  again : Lexer → Step
  done : Lexed → Step

unfoldable pub read_line_comment : Lexer → Bytes → Step
read_line_comment lx text =
    let (n, line_end) = line_comment text in
    again (add_lines (if line_end then 1 else 0) (move (2 + n) lx))

unfoldable pub read_block_comment : Lexer → Bytes → Step
read_block_comment lx text =
    let (is_closed, (n, lines)) = block_comment text in
    let after = add_lines lines (move (2 + n) lx) in
    if is_closed then again (move 2 after) else done (error_at unterminated_comment after)

-- The token of a name, which may be a keyword.
unfoldable pub name_token : Lexer → ℕ → Bytes → Option Token → Lexed
name_token lx n word none = lexed gtok_identifier (record (move n lx) {
  sym = record lx.sym { parse_type = parsed_identifier; identifier = word };
})
name_token lx n word (some gtok_case) = lexed gtok_case (record (move n lx) { regex_valid = true })
name_token lx n word (some token) = lexed token (move n lx)

unfoldable pub read_name : Lexer → Bytes → Lexed
read_name lx text =
    let n = count_while is_name_part text in
    name_token lx n (take n text) (find_keyword keywords (take n text))

unfoldable pub byte_before : Lexer → Option ℕ
byte_before lx = elim lx.offset [ zero ↦ none | suc n ↦ get_elem? lx.source n ]

unfoldable pub read_number : Strconv → Lexer → Bytes → Lexed
read_number c lx text = elim (scan_number c (byte_before lx) text) [
  | literal v n ↦ lexed gtok_literal (with_literal v (move n lx))
  | invalid_integer ↦ error_at integer_refused lx
  | invalid_float back ↦ error_at float_refused (record lx { offset = lx.offset - back })
  | out_of_range ↦ slice_panic
]

unfoldable pub read_string : Lexer → ℕ → Bytes → Lexed
read_string lx q text = elim (scan_string 0 q text) [
  | failed e lines ↦ error_at e (add_lines lines lx)
  | closed str n lines ↦
      lexed (if q == b'`' then gtok_template else gtok_literal)
        (with_literal (string str) (add_lines lines (move (suc n) lx)))
]

unfoldable pub read_regex : Lexer → Bytes → Lexed
read_regex lx text = elim (scan_regex false text) [
  | none ↦ error_at unterminated_regex (move 1 lx)
  | some n ↦
      lexed gtok_regexp
        (record (move (suc n) lx) { sym = record lx.sym { parse_type = parsed_regexp } })
]

-- lval.assignOp = …, where the operator sets it
unfoldable pub with_assign_op : Option Token → Sym → Sym
with_assign_op none sym = sym
with_assign_op (some t) sym = record sym { assign_op = t }

unfoldable pub with_operator : Operator → Lexer → Lexer
with_operator op lx = record (move op.width lx) {
  regex_valid = if op.sets_regex then true else lx.regex_valid;
  sym = with_assign_op op.assign_op lx.sym;
}

unfoldable pub read_operator : Lexer → ℕ → Bytes → Lexed
read_operator lx ch text =
    elim (scan_operator ch (peek text) (peek_next text) (peek (drop 2 text))) [
      | none ↦ error_at unrecognized_symbol lx
      | some op ↦ lexed op.token (with_operator op lx)
    ]

abbrev pub is_quote : ℕ → Bool
is_quote ch = ch == b'"' || ch == b'\'' || ch == b'`'

-- The token at the byte `ch`, with the text behind it.
unfoldable pub read_token : Strconv → Lexer → ℕ → Bytes → Lexed
read_token c lx ch text =
    if is_name_start ch
    then read_name lx (ch ∷ text)
    else if is_digit ch || (ch == b'.' && is_digit (peek text))
    then read_number c lx (ch ∷ text)
    else if is_quote ch
    then read_string lx ch text
    else if lx.regex_valid && (ch == b'/')
    then read_regex lx text
    else read_operator lx ch text

-- One round at the byte `ch`: a blank, a line end, a comment or a token.
unfoldable pub step_at : Strconv → Lexer → ℕ → Bytes → Step
step_at c lx ch text =
    if ch == 0
    then done (lexed gtok_eof lx)
    else if ch == b' ' || ch == b'\t'
    then again (move 1 lx)
    else if ch == b'\r' && (peek text == b'\n')
    then again (add_lines 1 (move 2 lx))
    else if ch == b'\r' || ch == b'\n'
    then again (add_lines 1 (move 1 lx))
    else if ch == b'/' && (peek text == b'/')
    then read_line_comment lx (drop 1 text)
    else if ch == b'/' && (peek text == b'*')
    then read_block_comment lx (drop 1 text)
    else done (read_token c lx ch text)

unfoldable pub lex_step : Strconv → Lexer → Bytes → Step
lex_step c lx [] = done (lexed gtok_eof lx)
lex_step c lx (ch ∷ text) = step_at c lx ch text

-- The loop, for a number of rounds at most.
unfoldable pub lex_loop : Strconv → ℕ → Lexer → Lexed
lex_loop c zero lx = out_of_fuel
lex_loop c (suc k) lx = elim (lex_step c lx (text_at lx)) [
  | done r ↦ r
  | again after ↦ lex_loop c k after
]

-- lval.parseType = PARSED_UNDEFINED
abbrev pub reset : Lexer → Lexer
reset lx = record lx { sym = record lx.sym { parse_type = parsed_undefined } }

-- ctx._lex(&ctx.sym): each round but the last goes over a byte of the source.
unfoldable pub raw_lex : Strconv → Lexer → Lexed
raw_lex c lx = lex_loop c (suc (length (text_at lx))) (reset lx)

-- ctx.lex(&ctx.sym): lval.token, and regexValid only for the next token.
unfoldable pub set_token : Bool → Token → Lexer → Lexer
set_token was_valid token lx = record lx {
  regex_valid = if was_valid then false else lx.regex_valid;
  sym = record lx.sym { token = token };
}

unfoldable pub with_token : Bool → Lexed → Lexed
with_token was_valid (lexed token after) = lexed token (set_token was_valid token after)
with_token was_valid (lex_error e line after) =
    lex_error e line (set_token was_valid gtok_error after)
with_token was_valid r = r

unfoldable pub lex : Strconv → Lexer → Lexed
lex c lx = with_token lx.regex_valid (raw_lex c lx)
