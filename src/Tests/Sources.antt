-- ===== src/Tests/Sources.antt =====
-- Sources of expressions and the lexer at their tokens.
use gescript.Base.{ℕ, ◌≡◌, refl, false, List, [], ◌∷◌, Bytes, codes}
use gescript.Types.Value.{DataType, integer, nil}
use gescript.Parser.Token.{
  Token, Lexer, ParseType, parsed_undefined, parsed_literal, parsed_identifier, gtok_unknown,
  gtok_eof, gtok_literal, gtok_identifier, gtok_add, gtok_mult, gtok_lp, gtok_rp, gtok_qmark,
  gtok_colon,
}
use gescript.Parser.Lexer.{lexed, lex}
use gescript.Tests.Sample.{plain_strconv}

-- The lexer of a source at an offset, behind a token.
abbrev pub seen : Bytes → ℕ → Token → ParseType → Bytes → DataType → Lexer
seen source offset token parse_type identifier v = record {
  source = source;
  offset = offset;
  line_number = 1;
  regex_valid = false;
  sym = record {
    token = token;
    parse_type = parse_type;
    identifier = identifier;
    literal = v;
    assign_op = gtok_unknown;
  };
}

abbrev pub at_number : Bytes → ℕ → ℕ → Lexer
at_number source offset n = seen source offset gtok_literal parsed_literal [] (integer n)

-- 1+2*a
abbrev pub sum : Bytes
sum = codes "1+2*a"

abbrev pub sum_start : Lexer
sum_start = at_number sum 1 1

abbrev pub sum_two : Lexer
sum_two = at_number sum 3 2

abbrev pub sum_plus : Lexer
sum_plus = seen sum 2 gtok_add parsed_undefined [] (integer 1)

abbrev pub sum_times : Lexer
sum_times = seen sum 4 gtok_mult parsed_undefined [] (integer 2)

abbrev pub sum_name : Lexer
sum_name = seen sum 5 gtok_identifier parsed_identifier (codes "a") (integer 2)

abbrev pub sum_end : Lexer
sum_end = seen sum 5 gtok_eof parsed_undefined (codes "a") (integer 2)

-- 1?2:3?4:5
abbrev pub chain : Bytes
chain = codes "1?2:3?4:5"

-- Behind the question mark or the colon that follows a number.
abbrev pub chain_mark : ℕ → Token → ℕ → Lexer
chain_mark offset token n = seen chain offset token parsed_undefined [] (integer n)

-- ()()
abbrev pub no_callee : Bytes
no_callee = codes "()()"

abbrev pub callee_at : ℕ → Token → Lexer
callee_at offset token = seen no_callee offset token parsed_undefined [] nil

-- (a)
abbrev pub in_parens : Bytes
in_parens = codes "(a)"

abbrev pub paren_start : Lexer
paren_start = seen in_parens 1 gtok_lp parsed_undefined [] nil

abbrev pub paren_name : Lexer
paren_name = seen in_parens 2 gtok_identifier parsed_identifier (codes "a") nil

abbrev pub paren_close : Lexer
paren_close = seen in_parens 3 gtok_rp parsed_undefined (codes "a") nil

abbrev pub paren_end : Lexer
paren_end = seen in_parens 3 gtok_eof parsed_undefined (codes "a") nil

-- 1?2:
abbrev pub open_choice : Bytes
open_choice = codes "1?2:"

abbrev pub open_mark : ℕ → Token → ℕ → Lexer
open_mark offset token n = seen open_choice offset token parsed_undefined [] (integer n)

-- The lexer goes from each place to the next.
abbrev pub Lexes : List Lexer → Type 0
Lexes [] = Unit
Lexes (lx ∷ []) = Unit
Lexes (lx ∷ (next ∷ rest)) =
    (lex plain_strconv lx ≡ lexed next.sym.token next) × Lexes (next ∷ rest)

pub all_lexed :
    Lexes (sum_start ∷ sum_plus ∷ sum_two ∷ sum_times ∷ sum_name ∷ sum_end ∷ [])
    × Lexes (
        at_number chain 1 1
        ∷ chain_mark 2 gtok_qmark 1
        ∷ at_number chain 3 2
        ∷ chain_mark 4 gtok_colon 2
        ∷ at_number chain 5 3
        ∷ chain_mark 6 gtok_qmark 3
        ∷ at_number chain 7 4
        ∷ chain_mark 8 gtok_colon 4
        ∷ at_number chain 9 5
        ∷ chain_mark 9 gtok_eof 5
        ∷ [])
    × Lexes
        (callee_at 1 gtok_lp ∷ callee_at 2 gtok_rp ∷ callee_at 3 gtok_lp ∷ callee_at 4 gtok_rp ∷ [])
    × Lexes (paren_start ∷ paren_name ∷ paren_close ∷ paren_end ∷ [])
    × Lexes (
        at_number open_choice 1 1
        ∷ open_mark 2 gtok_qmark 1
        ∷ at_number open_choice 3 2
        ∷ open_mark 4 gtok_colon 2
        ∷ open_mark 4 gtok_eof 2
        ∷ [])
unfolding lex gescript.Parser.Lexer.with_token gescript.Parser.Lexer.raw_lex
    gescript.Parser.Lexer.lex_loop gescript.Parser.Lexer.lex_step gescript.Parser.Lexer.step_at
    gescript.Parser.Lexer.read_token gescript.Parser.Lexer.Name.is_name_start
    gescript.Parser.Lexer.Name.is_digit gescript.Parser.Lexer.read_number
    gescript.Parser.Lexer.Number.scan_number gescript.Parser.Lexer.Number.decimal_literal
    gescript.Parser.Lexer.Blank.count_while gescript.Parser.Lexer.Number.integer_literal
    gescript.Parser.Lexer.set_token gescript.Parser.Lexer.read_operator
    gescript.Parser.Lexer.Name.find_keyword gescript.Parser.Lexer.Name.is_name_part
    gescript.Parser.Lexer.Number.is_float_part gescript.Parser.Lexer.Operators.assigning
    gescript.Parser.Lexer.Operators.punctuator gescript.Parser.Lexer.Operators.scan_operator
    gescript.Parser.Lexer.name_token gescript.Parser.Lexer.read_name
    gescript.Parser.Lexer.with_assign_op gescript.Parser.Lexer.with_operator gescript.Decimal.atoi
    gescript.Decimal.parse_digits gescript.Parser.Token.keywords
    gescript.Parser.Lexer.Operators.doubling
all_lexed = (
  (refl, (refl, (refl, (refl, (refl, tt))))),
  (refl, (refl, (refl, (refl, (refl, (refl, (refl, (refl, (refl, tt))))))))),
  (refl, (refl, (refl, tt))),
  (refl, (refl, (refl, tt))),
  (refl, (refl, (refl, (refl, tt)))),
)
