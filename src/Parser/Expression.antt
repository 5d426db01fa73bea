-- ===== src/Parser/Expression.antt =====
-- The Pratt parser of internal/parser/expression.go.
pub mod Precedence
pub mod Shared
pub mod Prefix
pub mod Parens
pub mod Literals
pub mod Infix
pub mod Syntax
pub mod Code
pub mod Steps
pub mod Pushes
pub mod Jumps
pub mod Access
pub mod Edges
pub mod Continues
pub mod Operands
pub mod Operators
pub mod Groups
pub mod Accesses
pub mod Correct
pub mod Nil
pub mod Captured
pub mod Unfinished
use gescript.Base.{
  ℕ, zero, suc, Bool, true, false, Option, none, some, List, [], ◌∷◌, Bytes, ltb, if◌then◌else◌,
}
use gescript.Types.Value.{Ref}
use gescript.Types.Convert.{Strconv}
use gescript.Parser.Token.{Token, Sym, gtok_eof, gtok_error}
use gescript.Parser.State.{
  Message, unexpected_symbol, left_syntax_error, Parser, Parse, parsed, endless, ◌>>=◌, ◌>>◌, pure,
  gets, refuse, lex_token, current, Operand,
}
use gescript.Parser.Expression.Precedence.{
  Nud, literal_nud, identifier_nud, this_nud, object_literal_nud, function_expr_nud, paren_nud,
  array_literal_nud, unary_nud, typeof_nud, delete_nud, prefix_incr_decr_nud, Led, call_led,
  element_access_led, member_access_led, postfix_incr_decr_led, infix_led, logical_and_led,
  logical_or_led, ternary_led, assignment_led, arrow_led, comma_led, PrecDefn, prec,
}
use gescript.Parser.Expression.Shared.{Parsers, advance}
use gescript.Parser.Expression.Prefix
use gescript.Parser.Expression.Parens
use gescript.Parser.Expression.Literals
use gescript.Parser.Expression.Infix

-- parseFunctionDecl(nameReq, isArrow, paramNames) of statement.go, which parses statements.
abbrev pub FunctionParser : Type 0
FunctionParser = Bool → Bool → List Bytes → Parse (Option Ref)

-- tprec.nud(prs, tprec, &tsym)
unfoldable pub run_nud : Parsers → Nud → ℕ → Sym → Parse (Option Operand)
run_nud ps literal_nud lbp sym = pure (some (Prefix.literal_nud sym))
run_nud ps identifier_nud lbp sym = Prefix.identifier_nud sym.identifier
run_nud ps this_nud lbp sym = Prefix.this_nud
run_nud ps object_literal_nud lbp sym = Literals.object_literal_nud ps
run_nud ps function_expr_nud lbp sym = Prefix.function_expr_nud ps
run_nud ps paren_nud lbp sym = Parens.paren_nud ps
run_nud ps array_literal_nud lbp sym = Literals.array_literal_nud ps
run_nud ps unary_nud lbp sym = Prefix.unary_nud ps lbp sym.token
run_nud ps typeof_nud lbp sym = Prefix.typeof_nud ps lbp
run_nud ps delete_nud lbp sym = Prefix.delete_nud ps lbp
run_nud ps prefix_incr_decr_nud lbp sym = Prefix.prefix_incr_decr_nud ps sym.token

-- tprec.led(prs, tprec, &tsym, left)
unfoldable pub run_led : Parsers → Led → ℕ → Sym → Option Operand → Parse (Option Operand)
run_led ps call_led lbp sym left = Infix.call_led ps left
run_led ps element_access_led lbp sym left = Infix.element_access_led ps left
run_led ps member_access_led lbp sym left = Infix.member_access_led ps left
run_led ps postfix_incr_decr_led lbp sym left = Infix.postfix_incr_decr_led sym.token left
run_led ps infix_led lbp sym left = Infix.infix_led ps lbp sym.token left
run_led ps logical_and_led lbp sym left = Infix.logical_and_led ps lbp left
run_led ps logical_or_led lbp sym left = Infix.logical_or_led ps lbp left
run_led ps ternary_led lbp sym left = Infix.ternary_led ps lbp left
run_led ps assignment_led lbp sym left = Infix.assignment_led ps lbp left
run_led ps arrow_led lbp sym left = Infix.arrow_led ps left
run_led ps comma_led lbp sym left = Infix.comma_led ps lbp left

-- The led of the current token, if it binds what is on its left more tightly than `rbp`.
unfoldable pub led_above : ℕ → Option PrecDefn → Option (ℕ × Led)
led_above rbp none = none
led_above rbp (some tprec) =
    if ltb rbp tprec.lbp
    then elim tprec.led [ none ↦ none | some led ↦ some (tprec.lbp, led) ]
    else none

unfoldable pub binding_led : ℕ → Token → Option (ℕ × Led)
unfolding led_above
binding_led rbp token = led_above rbp (prec token)

-- What completeExpression goes on with, if a result is not nil.
unfoldable pub complete_some : Parsers → ℕ → Option Operand → Parse (Option Operand)
complete_some ps rbp none = pure none
complete_some ps rbp (some operand) = ps.complete_expression rbp (some operand)

-- The body of parseExpression for the entry of its token.
unfoldable pub start_with : Parsers → ℕ → Sym → Option PrecDefn → Parse (Option Operand)
start_with ps rbp sym none = refuse (unexpected_symbol sym.identifier)
start_with ps rbp sym (some tprec) = elim tprec.nud [
  | none ↦ refuse (left_syntax_error sym.identifier)
  | some nud ↦ advance ps.strconv (run_nud ps nud tprec.lbp sym >>= ps.complete_expression rbp)
]

-- A round of the loop of completeExpression.
unfoldable pub go_on_with :
    Parsers → ℕ → Sym → Option Operand → Option (ℕ × Led) → Parse (Option Operand)
unfolding complete_some
go_on_with ps rbp sym left none = pure left
go_on_with ps rbp sym left (some (lbp, led)) =
    advance ps.strconv (run_led ps led lbp sym left >>= complete_some ps rbp)

-- parseExpression(rbp), rbp not negative, and completeExpression(rbp, left), with a bound on their
-- calls and rounds.
unfoldable mutual
  pub parse_expression : Strconv → FunctionParser → ℕ → ℕ → Parse (Option Operand)
  parse_expression c functions zero rbp = λ p. endless
  parse_expression c functions (suc k) rbp = do
    sym ← gets λ p. p.lexer.sym
    start_with
        (record {
          strconv = c;
          rounds = k;
          parse_expression = parse_expression c functions k;
          complete_expression = complete_expression c functions k;
          parse_function_decl = functions;
        })
        rbp sym (prec sym.token)

  pub complete_expression :
      Strconv → FunctionParser → ℕ → ℕ → Option Operand → Parse (Option Operand)
  complete_expression c functions zero rbp left = λ p. endless
  complete_expression c functions (suc k) rbp left = do
    sym ← gets λ p. p.lexer.sym
    go_on_with
        (record {
          strconv = c;
          rounds = k;
          parse_expression = parse_expression c functions k;
          complete_expression = complete_expression c functions k;
          parse_function_decl = functions;
        })
        rbp sym left (binding_led rbp sym.token)

-- parseExpression(-rbp), which reads the first token.
unfoldable pub next_expression : Strconv → FunctionParser → ℕ → ℕ → Parse (Option Operand)
next_expression c functions k rbp = do
  token ← lex_token c
  if Infix.is_end token then pure none else parse_expression c functions k rbp
