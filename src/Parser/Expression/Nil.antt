-- ===== src/Parser/Expression/Nil.antt =====
-- Where the expression parser goes on with a left side that is nil, and where parentheses change what a
-- name is (parseExpression, callLed and parenNud of internal/parser/expression.go).
use gescript.Base.{ℕ, suc, ◌<◌, ◌≡◌, sym, ap, ◌∙◌, Option, none, List, [], ◌∷◌, ◌++◌, if◌then◌else◌}
use mathlib.Core.Path.{subst}
use gescript.Types.Convert.{Strconv}
use gescript.Engine.Code.{OpCode}
use gescript.Parser.Token.{Lexer, gtok_lp, gtok_rp}
use gescript.Parser.State.{
  Parser, Parse, parsed, panicked, continue, refuse, empty_parentheses, ◌>>=◌, ◌>>◌, add_error,
  lex_token, Operand,
}
use gescript.Parser.Expression.{
  FunctionParser, run_nud, run_led, go_on_with, binding_led, parse_expression, complete_expression,
}
use gescript.Parser.Expression.Precedence
use gescript.Parser.Expression.Precedence.{prec}
use gescript.Parser.Expression.Shared.{is_rp, is_identifier, advance}
use gescript.Parser.Expression.Prefix.{parse_arrow_function_body}
use gescript.Parser.Expression.Parens.{is_arrow, paren_nud, paren_identifier, close_paren, arrow_or}
use gescript.Parser.Expression.Infix.{push_callee, call_led}
use gescript.Parser.Expression.Syntax.{nud_of, led_of, power, power_of, word}
use gescript.Parser.Expression.Steps.{
  Advances, Runs, at, parsers, advance-step, parse_expression-step, led_above-some,
}

module _ (c : Strconv) (functions : FunctionParser) where
  complete_expression-nil_call :
      (p : Parser) (k rbp : ℕ) (lx next : Lexer) (code : List OpCode)
      → lx.sym.token ≡ gtok_lp
      → rbp < 85
      → Advances c lx next
      → complete_expression c functions (suc k) rbp none (at p lx code) ≡ panicked
  unfolding complete_expression binding_led go_on_with run_led call_led push_callee led_of prec
      power_of
  complete_expression-nil_call p k rbp lx next code tok lt s =
      let lt' : rbp < power lx.sym.token = subst (λ t. rbp < power t) (sym tok) lt in
      ap (λ o. go_on_with (parsers c functions p k) rbp lx.sym none o (at p lx code))
        (led_above-some rbp (prec lx.sym.token) Precedence.call_led (ap (λ t. led_of (prec t)) tok)
          lt')
      ∙ advance-step c p lx next code _ s

  -- Empty parentheses with an opening parenthesis behind them, and no error of the lexer in
  -- these and the next token, make the parser panic, where a call binds more tightly than asked
  -- for.
  pub empty_parentheses-call :
      (p : Parser) (k rbp : ℕ) (end : Lexer)
      → rbp < 85
      → Runs c (word gtok_lp ∷ word gtok_rp ∷ word gtok_lp ∷ []) p.lexer end
      → parse_expression c functions (suc (suc k)) rbp p ≡ panicked
  unfolding nud_of prec run_nud paren_nud arrow_or is_arrow is_rp add_error
  empty_parentheses-call p k rbp end lt
        (tok, (second, s, (is_end, (third, s', (is_call, (last, s'', e)))))) =
      let ps = parsers c functions p (suc k) in
      let refused : Parser = record p {
        errors =
            p.errors
            ++ record { line_number = third.line_number; error_msg = empty_parentheses } ∷ [];
      } in
      let error : Parse (Option Operand) = refuse empty_parentheses in
      let empty : Parse (Option Operand) = advance c (arrow_or ps [] error) in
      let filled : Parse (Option Operand) =
        if is_identifier second.sym.token
        then paren_identifier ps second.sym.identifier
        else ps.parse_expression 0 >>= close_paren c in
      let nothing : paren_nud ps (at p second p.code) ≡ parsed none (at refused third p.code) =
        ap (λ t. (if is_rp t then empty else filled) (at p second p.code)) is_end
        ∙ advance-step c p second third p.code (arrow_or ps [] error) s'
        ∙ ap
            (λ t.
              (if is_arrow t then lex_token c >> parse_arrow_function_body ps [] else error)
                (at p third p.code))
            is_call in
      parse_expression-step c functions p (suc k) rbp Precedence.paren_nud p.lexer second p.code
        (ap (λ t. nud_of (prec t)) tok) s
      ∙ ap (λ m. continue m (complete_expression c functions (suc k) rbp)) nothing
      ∙ complete_expression-nil_call refused k rbp third last p.code is_call lt s''
