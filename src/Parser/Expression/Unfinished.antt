-- ===== src/Parser/Expression/Unfinished.antt =====
-- A choice whose source ends behind the colon (ternaryLed and completeExpression of
-- internal/parser/expression.go), in the program's own code.
use gescript.Base.{
  ℕ, suc, ◌+◌, ◌-◌, ◌*◌, ◌<◌, ◌≤◌, ◌≡◌, sym, ap, ◌∙◌, Option, none, some, List, [], ◌∷◌, ◌++◌,
  length, if◌then◌else◌, arith,
}
use mathlib.Core.Path.{subst}
use gescript.Types.Convert.{Strconv}
use gescript.Engine.Code.{OpCode}
use gescript.Parser.Token.{Lexer, gtok_eof, gtok_colon, gtok_qmark}
use gescript.Parser.State.{
  Parser, Parse, parsed, continue, ◌>>=◌, pure, refuse, ternary_colon_expected, lex_token,
  push_op_code, patch, Operand,
}
use gescript.Parser.Expression.{
  FunctionParser, run_led, go_on_with, complete_some, binding_led, parse_expression,
  complete_expression,
}
use gescript.Parser.Expression.Precedence
use gescript.Parser.Expression.Precedence.{prec, Led}
use gescript.Parser.Expression.Shared.{Parsers, or_nil, push_expression}
use gescript.Parser.Expression.Infix.{
  land, is_colon, is_end, ternary_else, ternary_then, ternary_led,
}
use gescript.Parser.Expression.Syntax.{
  Expr, word, first, others, power, power_of, led_of, BindsLeft, BindsRight, IsWritten, steps,
}
use gescript.Parser.Expression.Code.{operand, early, full, AreInitialized}
use gescript.Parser.Expression.Steps.{
  Advances, Runs, Runs-append, at, parsers, lex_token-step, advance-step, led_above-some,
}
use gescript.Parser.Expression.Pushes.{Parses, push_expression-full, push_eval_expression-full}
use gescript.Parser.Expression.Continues.{Continues-whole}
use gescript.Parser.Expression.Correct.{expression-Continues, bound-tokens}

-- The end of the source where the last part of a ternary begins.
ternary_else-end :
    (ps : Parsers) (lbp place : ℕ) (p : Parser) (lx end : Lexer) (code : List OpCode)
    → lx.sym.token ≡ gtok_colon
    → Advances ps.strconv lx end
    → end.sym.token ≡ gtok_eof
    → ternary_else ps lbp place (at p lx code) ≡ parsed none (at p end code)
unfolding ternary_else is_colon is_end
ternary_else-end ps lbp place p lx end code colon s eof =
    let rest : Parse (Option Operand) = push_expression ps lbp >>= land place OpCode.jump in
    let next : Parse (Option Operand) =
      lex_token ps.strconv >>= λ token. if is_end token then pure none else rest in
    ap (λ t. (if is_colon t then next else refuse ternary_colon_expected) (at p lx code)) colon
    ∙ ap (λ r. continue r λ token. if is_end token then pure none else rest)
        (lex_token-step ps.strconv p lx end code s)
    ∙ ap (λ t. (if is_end t then pure none else rest) (at p end code)) eof

ternary_led-end :
    (ps : Parsers) (lbp : ℕ) (p : Parser) (a b : Expr) (lx colon end : Lexer) (code : List OpCode)
    → Parses ps 0 p b lx colon
    → colon.sym.token ≡ gtok_colon
    → Advances ps.strconv colon end
    → end.sym.token ≡ gtok_eof
    → (after : List OpCode) × (ternary_led ps lbp
          (some (operand p.block a))
          (at p lx (code ++ early p.block (length code) a))
        ≡ parsed none (at p end after))
unfolding ternary_led ternary_then push_op_code patch
ternary_led-end ps lbp p a b lx colon end code h is_col s eof =
    let test = full p.block (length code) a in
    let start = (code ++ test) ++ OpCode.jump_if_false 0 ∷ [] in
    (
      _,
      ap
            (λ r. continue r λ ok. or_nil ok (
              push_op_code (OpCode.jump_if_false 0) >>= λ jmp_false.
              push_expression ps 0 >>= ternary_then ps lbp jmp_false))
            (push_eval_expression-full p a lx code)
          ∙ ap (λ r. continue r (ternary_then ps lbp (length (code ++ test))))
              (push_expression-full ps 0 p b lx colon start h)
          ∙ ternary_else-end ps lbp _ p colon end _ is_col s eof,
    )

module _ (c : Strconv) (functions : FunctionParser) where
  complete_expression-nil :
      (p : Parser) (k rbp : ℕ) (left : Option Operand) (lx after : Lexer) (code : List OpCode)
      (led : Led) (q : Parser)
      → led_of (prec lx.sym.token) ≡ some led
      → rbp < power lx.sym.token
      → Advances c lx after
      → run_led (parsers c functions p k) led (power lx.sym.token) lx.sym left (at p after code)
        ≡ parsed none q
      → complete_expression c functions (suc k) rbp left (at p lx code) ≡ parsed none q
  unfolding complete_expression binding_led go_on_with complete_some
  complete_expression-nil p k rbp left lx after code led q h l s r =
      ap (λ o. go_on_with (parsers c functions p k) rbp lx.sym left o (at p lx code))
        (led_above-some rbp (prec lx.sym.token) led h l)
      ∙ advance-step c p lx after code _ s
      ∙ ap (λ m. continue m (complete_some (parsers c functions p k) rbp)) r

  -- In the program's own code the parser of expressions returns nil and records no error on a
  -- choice whose source ends behind the colon, of two trees whose names are initialized, with
  -- parentheses where the powers ask for them, and where a choice binds more tightly than asked
  -- for; a bound of three for each token is enough.
  pub parse_expression-open_choice :
      (a b : Expr) (rbp k : ℕ) (p : Parser) (end : Lexer)
      → IsWritten a
      → IsWritten b
      → AreInitialized p.block a
      → AreInitialized p.block b
      → p.captures.outers ≡ []
      → rbp < 20
      → BindsLeft rbp a
      → BindsRight a 20
      → BindsLeft 0 b
      → BindsRight b 0
      → Runs c
          ((first a ∷ others a)
            ++ (word gtok_qmark ∷ ((first b ∷ others b) ++ (word gtok_colon ∷ []))))
          p.lexer
          end
      → end.sym.token ≡ gtok_eof
      → 3 * (length (others a) + length (others b) + 4) ≤ k
      → (code : List OpCode) × (parse_expression c functions k rbp p
          ≡ parsed none (record p { lexer = end; code = code }))
  unfolding run_led led_of prec power_of
  parse_expression-open_choice a b rbp k p end wa wb ia ib outer lt l r lb rb run eof fuel =
      let (mid, ra, (tok, (next, s, rest))) =
        Runs-append c (first a ∷ others a) _ p.lexer end run in
      let (colon, run_b, (is_col, (x, s', e))) =
        Runs-append c (first b ∷ others b) (word gtok_colon ∷ []) next end rest in
      let ha = bound-tokens a in
      let hb = bound-tokens b in
      let j = k - suc (suc (steps a)) in
      let enough : k ≡ suc (steps a + suc j) = omega arith in
      let r' : BindsRight a (power mid.sym.token) =
        subst (λ u. BindsRight a (power u)) (sym tok) r in
      let lt' : rbp < power mid.sym.token = subst (λ u. rbp < power u) (sym tok) lt in
      let rb' : BindsRight b (power colon.sym.token) =
        subst (λ u. BindsRight b (power u)) (sym is_col) rb in
      let stop : power colon.sym.token ≤ 0 = subst (λ u. power u ≤ 0) (sym is_col) (omega arith) in
      let inside : Parses (parsers c functions p j) 0 p b next colon =
        Continues-whole c functions p outer b j 0 next colon
          (expression-Continues c functions p outer b wb ib) (omega arith) run_b lb rb' stop in
      let (after, led) =
        ternary_led-end (parsers c functions p j) (power mid.sym.token) p a b next colon end p.code
          inside is_col (subst (Advances c colon) e s') eof in
      (
        after,
        ap (λ n. parse_expression c functions n rbp p) enough
            ∙ expression-Continues c functions p outer a wa ia (suc j) rbp p.lexer mid p.code
                (omega arith) ra l r'
            ∙ complete_expression-nil p j rbp (some (operand p.block a)) mid next _
                Precedence.ternary_led _ (ap (λ u. led_of (prec u)) tok) lt' s led,
      )
