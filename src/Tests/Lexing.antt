-- ===== src/Tests/Lexing.antt =====
-- Runs of the lexer.
use gescript.Base.{
  ◌*◌, ◌^◌, arith, ℕ, zero, suc, ◌≡◌, refl, false, List, [], ◌∷◌, Bytes, codes, some,
}
use gescript.Types.Value.{nil, number}
use gescript.Float.{Float}
use gescript.Types.Convert.{Strconv}
use gescript.Parser.Token.{Token, gtok_unknown, parsed_undefined, Sym, Lexer}
use gescript.Parser.Lexer.Bounds.{lex-Fits}
use gescript.Parser.Lexer.Bounds.Forward.{LexFits}
use gescript.Parser.Lexer.Spelling.Lexemes.{quoted, symbol_of, valued, Reads}
use gescript.Parser.Lexer.Spelling.{separates, quote_byte, quote_bytes}
use gescript.Parser.Lexer.Blank.{count_while}
use gescript.Parser.Lexer.Name.{is_name_part, is_digit}
use gescript.Parser.Lexer.Number.{is_float_part}
use gescript.Parser.Lexer.Spelling.RoundTrip.{lex-spell}
use gescript.Parser.Lexer.Spelling.Dots.{lex-dot_panics, lex-dot_value}
use gescript.Parser.Lexer.{lexed, slice_panic, new_lexer, lex}
use gescript.Tests.Sample.{plain_strconv}

abbrev pub no_sym : Sym
no_sym = record {
  token = gtok_unknown;
  parse_type = parsed_undefined;
  identifier = [];
  literal = nil;
  assign_op = gtok_unknown;
}

-- The tokens up to the end or an error, with the offsets behind them.
all_tokens : ℕ → Lexer → List (Token × ℕ)
all_tokens zero lx = []
all_tokens (suc k) lx = elim (lex plain_strconv lx) [
  | lexed t after ↦ (t, after.offset) ∷ all_tokens k after
  | _ ↦ []
]

some_tokens : List (Token × ℕ)
some_tokens = all_tokens 9 (new_lexer no_sym (codes "if (x>>>=0x1F) // c\n y = 'a\\n'"))

abbrev a_lexer : Bytes → Lexer
a_lexer source = record {
  source = source;
  offset = 0;
  line_number = 1;
  regex_valid = false;
  sym = no_sym;
}

abbrev at_offset : ℕ → Lexer → Lexer
at_offset n lx = record lx { offset = n }

lex-Fits_example :
    LexFits
      (a_lexer (codes "/* c */ x >>>= .5"))
      (lex plain_strconv (a_lexer (codes "/* c */ x >>>= .5")))
lex-Fits_example = lex-Fits plain_strconv (a_lexer (codes "/* c */ x >>>= .5")) (omega arith)

lex-spell_example :
    Reads
      (at_offset 2 (a_lexer (codes "a \"b\\\"c\" d")))
      6
      (symbol_of (quoted (codes "b\"c")) no_sym)
      (lex plain_strconv (at_offset 2 (a_lexer (codes "a \"b\\\"c\" d"))))
unfolding separates is_name_part is_digit quote_byte quote_bytes
lex-spell_example =
    lex-spell plain_strconv (at_offset 2 (a_lexer (codes "a \"b\\\"c\" d"))) (quoted (codes "b\"c"))
      (codes " d") tt refl refl refl

lex-dot_panics_example : lex plain_strconv (a_lexer (codes ".5")) ≡ slice_panic
unfolding is_digit
lex-dot_panics_example = lex-dot_panics plain_strconv (a_lexer (codes ".5")) b'5' [] refl refl refl

abbrev one_half : Float
one_half = 1022 * 2 ^ 52

-- It reads any text as a half.
abbrev half_strconv : Strconv
half_strconv = record plain_strconv { parse_float = λ s. some one_half }

lex-dot_value_example :
    Reads
      (at_offset 2 (a_lexer (codes "1-.5")))
      2
      (valued (number one_half) no_sym)
      (lex half_strconv (at_offset 2 (a_lexer (codes "1-.5"))))
unfolding count_while is_float_part is_digit
lex-dot_value_example =
    lex-dot_value half_strconv (at_offset 2 (a_lexer (codes "1-.5"))) 1 b'-' b'5' [] one_half refl
      refl refl refl refl
