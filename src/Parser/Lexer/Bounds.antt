-- ===== src/Parser/Lexer/Bounds.antt =====
-- Where the lexer stands after a token.
pub mod Scans
pub mod Symbols
pub mod Numbers
pub mod Forward
pub mod Tokens
use gescript.Base.{
  ℕ, zero, suc, ◌+◌, ◌-◌, ◌<◌, ◌≤◌, ◌≡◌, ◌⊎◌, ◌∙◌, inl, inr, refl, sym, ap, Bool, true, false, not,
  ◌&&◌, ◌||◌, Option, none, some, List, [], ◌∷◌, Bytes, ◌==◌, if◌then◌else◌, take, drop, length,
  length-drop, and_right, get_elem?, get_elem?_of_lt, arith, Bool-cases, Option-cases,
}
use gescript.Types.Value.{DataType, string}
use gescript.Types.Convert.{Strconv}
use gescript.Parser.Token.{
  Token, gtok_eof, gtok_identifier, gtok_literal, gtok_template, gtok_regexp, gtok_case, gtok_error,
  Lexer, Sym, text_at, keywords, parsed_identifier, parsed_undefined, parsed_regexp,
}
use gescript.Parser.Lexer.{
  Lexed, lexed, lex_error, slice_panic, out_of_fuel, move, add_lines, with_literal, error_at, Step,
  again, done, read_line_comment, read_block_comment, name_token, read_name, byte_before,
  read_number, read_string, read_regex, with_operator, read_operator, is_quote, read_token, step_at,
  lex_step, lex_loop, raw_lex, set_token, with_token, lex,
}
use gescript.Parser.Lexer.Blank.{peek, peek_next, count_while, line_comment, block_comment}
use gescript.Parser.Lexer.Name.{is_digit, is_name_start, is_name_part, find_keyword}
use gescript.Parser.Lexer.Number.{
  NumberScan, literal, invalid_integer, invalid_float, out_of_range, scan_number,
}
use gescript.Parser.Lexer.Quoted.{
  LexError, unterminated_comment, integer_refused, float_refused, unterminated_regex,
  unrecognized_symbol, StringScan, closed, failed, scan_string, scan_regex,
}
use gescript.Parser.Lexer.Operators.{Operator, scan_operator}
use gescript.Parser.Lexer.Bounds.Scans.{
  count_while-le, count_while_pos, line_comment-le, block_comment-le, StringFits, RegexFits,
  scan_string-Fits, scan_regex-Fits, peek-cons,
}
use gescript.Parser.Lexer.Bounds.Symbols.{OperatorFits, scan_operator-Fits}
use gescript.Parser.Lexer.Bounds.Numbers.{
  NumberFits, scan_number-Fits, is_out_of_range, scan_number-in_range,
}
use gescript.Parser.Lexer.Bounds.Forward.{StepFits, Advances, LexFits, starts_with_dot}
use gescript.Parser.Lexer.Bounds.Tokens.{step_at-Fits}

lex_step-Fits :
    (c : Strconv) (lx : Lexer) (text : Bytes)
    → text_at lx ≡ text
    → lx.offset ≤ length lx.source
    → StepFits lx (lex_step c lx text)
unfolding lex_step
lex_step-Fits c lx [] at h = record {
  same_source = refl;
  in_source = h;
  forward = omega arith;
  moves_on = inl refl;
  lines = omega arith;
}
lex_step-Fits c lx (ch ∷ text) at h = step_at-Fits c lx ch text at

-- What holds of the rest of the loop holds of the loop.
LexFits-later :
    (lx after : Lexer) (r : Lexed) → StepFits lx (again after) → LexFits after r → LexFits lx r
LexFits-later lx after (lexed token last) (s, i, f, l) h = record {
  same_source = h.same_source ∙ s;
  in_source = omega (arith, ap length s, h.in_source);
  forward = omega (arith, h.forward);
  moves_on = inr (omega (arith, h.forward));
  lines = omega (arith, h.lines);
}
LexFits-later lx after (lex_error e line last) (s, i, f, l) (hs, hi, hl) =
    (hs ∙ s, omega (arith, ap length s), omega arith)
LexFits-later lx after slice_panic (s, i, f, l) (z, d) = absurd (omega arith)
LexFits-later lx after out_of_fuel s h = h

step-Fits :
    (c : Strconv) (k : ℕ) (lx : Lexer) (step : Step)
    → StepFits lx step
    → ((after : Lexer) → StepFits lx (again after) → LexFits after (lex_loop c k after))
    → LexFits lx (elim step [ done r ↦ r | again after ↦ lex_loop c k after ])
step-Fits c k lx (done r) h later = h
step-Fits c k lx (again after) h later =
    LexFits-later lx after (lex_loop c k after) h (later after h)

lex_loop-Fits :
    (c : Strconv) (k : ℕ) (lx : Lexer)
    → lx.offset ≤ length lx.source
    → length lx.source - lx.offset < k
    → LexFits lx (lex_loop c k lx)
unfolding lex_loop
lex_loop-Fits c zero lx h enough = absurd (omega arith)
lex_loop-Fits c (suc k) lx h enough =
    step-Fits c k lx (lex_step c lx (text_at lx)) (lex_step-Fits c lx (text_at lx) refl h)
      λ after (s, i, f, l).
        lex_loop-Fits c k after (omega (arith, ap length s)) (omega (arith, ap length s))

LexFits-sym : (lx : Lexer) (s : Sym) (r : Lexed) → LexFits (record lx { sym = s }) r → LexFits lx r
LexFits-sym lx s (lexed token after) h = record {
  same_source = h.same_source;
  in_source = h.in_source;
  forward = h.forward;
  moves_on = h.moves_on;
  lines = h.lines;
}
LexFits-sym lx s (lex_error e line after) h = h
LexFits-sym lx s slice_panic h = h
LexFits-sym lx s out_of_fuel h = h

raw_lex-Fits : (c : Strconv) (lx : Lexer) → lx.offset ≤ length lx.source → LexFits lx (raw_lex c lx)
unfolding raw_lex
raw_lex-Fits c lx h =
    let sym = record lx.sym { parse_type = parsed_undefined } in
    LexFits-sym lx sym (lex_loop c (suc (length (text_at lx))) (record lx { sym = sym })) (
      lex_loop-Fits c (suc (length (text_at lx))) (record lx { sym = sym }) h
        (omega (arith, length-drop lx.offset lx.source)))

with_token-Fits : (lx : Lexer) (r : Lexed) → LexFits lx r → LexFits lx (with_token lx.regex_valid r)
unfolding with_token set_token
with_token-Fits lx (lexed token after) h = record {
  same_source = h.same_source;
  in_source = h.in_source;
  forward = h.forward;
  moves_on = h.moves_on;
  lines = h.lines;
}
with_token-Fits lx (lex_error e line after) h = h
with_token-Fits lx slice_panic h = h
with_token-Fits lx out_of_fuel h = h

-- From a place within the source the lexer always comes to an end: a token goes forward within the
-- source, by a byte at least if it is not the end, and no line number goes down; an error leaves
-- the lexer within the source; and it panics only at the very front of a source that begins with a
-- dot and a digit.
pub lex-Fits : (c : Strconv) (lx : Lexer) → lx.offset ≤ length lx.source → LexFits lx (lex c lx)
unfolding lex
lex-Fits c lx h = with_token-Fits lx (raw_lex c lx) (raw_lex-Fits c lx h)
