-- ===== src/Parser/Expression/Operators.antt =====
-- Prefix, binary and logical operators under the expression parser (internal/parser/expression.go).
use gescript.Base.{◌≤◌, ◌≡◌, sym, ap, ◌∙◌, some, [], ◌++◌, length, arith}
use mathlib.Core.Path.{subst}
use gescript.Types.Convert.{Strconv}
use gescript.Engine.Code.{OpCode}
use gescript.Parser.Token.{Token}
use gescript.Parser.State.{Parser, continue, value}
use gescript.Parser.Expression.{FunctionParser, run_nud, run_led, complete_expression}
use gescript.Parser.Expression.Precedence.{prec, Led, infix_led}
use gescript.Parser.Expression.Precedence
use gescript.Parser.Expression.Syntax.{
  Expr, prefix, binary, both, either, first, others, power, prefix_power, nud_of, BindsLeft,
  IsWritten, steps, size,
}
use gescript.Parser.Expression.Code.{operand, early}
use gescript.Parser.Expression.Steps.{at, parsers, parse_expression-step}
use gescript.Parser.Expression.Pushes.{unary_nud-full, infix_led-full}
use gescript.Parser.Expression.Infix.{logical_and_led, logical_or_led}
use gescript.Parser.Expression.Jumps.{logical-full}
use gescript.Parser.Expression.Continues.{Continues, Continues-whole, Continues-operator, no_steps}

module _ (c : Strconv) (functions : FunctionParser) (p : Parser)
    (outer : p.captures.outers ≡ []) where
  pub prefix-Continues :
      (t : Token) (a : Expr)
      → IsWritten (prefix t a)
      → Continues c functions p outer a
      → Continues c functions p outer (prefix t a)
  unfolding steps size first others operand run_nud
  prefix-Continues t a (nud, l, w) h j rbp lx end code k (tok, (after, s, run)) bl (m, br) =
      let l' : BindsLeft (prefix_power lx.sym.token) a =
        subst (λ u. BindsLeft (prefix_power u) a) (sym tok) l in
      let m' : power end.sym.token ≤ prefix_power lx.sym.token =
        subst (λ u. power end.sym.token ≤ prefix_power u) (sym tok) m in
      no_steps c functions p outer j rbp (at p lx code)
      ∙ parse_expression-step c functions p j rbp Precedence.unary_nud lx after code
          (ap (λ u. nud_of (prec u)) tok ∙ nud) s
      ∙ ap (λ m. continue m (complete_expression c functions j rbp))
          (unary_nud-full (parsers c functions p j) (prefix_power lx.sym.token) lx.sym.token p a
            after end code
            (Continues-whole c functions p outer a j (prefix_power lx.sym.token) after end h k run
              l' br m'))
      ∙ ap
          (λ u.
            complete_expression c functions j rbp (some value)
              (at p end (code ++ early p.block (length code) (prefix u a))))
          tok

  pub binary-Continues :
      (t : Token) (a b : Expr)
      → IsWritten (binary t a b)
      → Continues c functions p outer a
      → Continues c functions p outer b
      → Continues c functions p outer (binary t a b)
  unfolding steps size first others operand run_led
  binary-Continues t a b (led, r, l, wa, wb) ha hb j rbp lx end code k run (lt, bl) (m, br) =
      Continues-operator c functions p outer a b t (λ u. binary u a b) j rbp infix_led lx end code
        ha hb (omega arith) (omega arith) run led r l lt bl m br
        λ s next right.
          infix_led-full (parsers c functions p j) (power s.token) s.token p a b next end code right

  pub both-Continues :
      (t : Token) (a b : Expr)
      → IsWritten (both t a b)
      → Continues c functions p outer a
      → Continues c functions p outer b
      → Continues c functions p outer (both t a b)
  unfolding steps size first others operand run_led early logical_and_led
  both-Continues t a b (led, r, l, wa, wb) ha hb j rbp lx end code k run (lt, bl) (m, br) =
      Continues-operator c functions p outer a b t (λ u. both u a b) j rbp
        Precedence.logical_and_led lx end code ha hb (omega arith) (omega arith) run led r l lt bl m
        br
        λ s next right.
          logical-full (parsers c functions p j) (power s.token) OpCode.jump_if_false_or_pop p a b
            next end code right

  pub either-Continues :
      (t : Token) (a b : Expr)
      → IsWritten (either t a b)
      → Continues c functions p outer a
      → Continues c functions p outer b
      → Continues c functions p outer (either t a b)
  unfolding steps size first others operand run_led early logical_or_led
  either-Continues t a b (led, r, l, wa, wb) ha hb j rbp lx end code k run (lt, bl) (m, br) =
      Continues-operator c functions p outer a b t (λ u. either u a b) j rbp
        Precedence.logical_or_led lx end code ha hb (omega arith) (omega arith) run led r l lt bl m
        br
        λ s next right.
          logical-full (parsers c functions p j) (power s.token) OpCode.jump_if_true_or_pop p a b
            next end code right
