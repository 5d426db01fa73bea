-- ===== src/Parser/Expression/Continues.antt =====
-- What it is that the expression parser takes the tokens of a tree, and how it does at the left edge
-- of one (parseExpression and completeExpression of internal/parser/expression.go).
use gescript.Base.{
  ℕ, suc, ◌+◌, ◌-◌, ◌<◌, ◌≤◌, ◌≡◌, sym, ap, ◌∙◌, some, List, [], ◌∷◌, ◌++◌, length, arith,
}
use mathlib.Core.Path.{subst}
use gescript.Types.Convert.{Strconv}
use gescript.Engine.Code.{OpCode}
use gescript.Parser.Token.{Token, Sym, Lexer}
use gescript.Parser.State.{Parser, parsed, Operand, value}
use gescript.Parser.Expression.{FunctionParser, run_led, parse_expression, complete_expression}
use gescript.Parser.Expression.Precedence.{prec, Led}
use gescript.Parser.Expression.Syntax.{
  Expr, word, first, others, power, led_of, BindsLeft, BindsRight, steps, size, bound,
}
use gescript.Parser.Expression.Code.{operand, early}
use gescript.Parser.Expression.Steps.{
  Advances, Runs, Runs-append, at, parsers, complete_expression-stop, complete_expression-step,
}
use gescript.Parser.Expression.Pushes.{Parses}

module _ (c : Strconv) (functions : FunctionParser) (p : Parser)
    (outer : p.captures.outers ≡ []) where
  -- The parser is behind the tokens of a tree with its operand, and goes on.
  abbrev pub Continues : Expr → Type 0
  Continues e =
      (j rbp : ℕ) (lx end : Lexer) (code : List OpCode)
      → size e ≤ j
      → Runs c (first e ∷ others e) lx end
      → BindsLeft rbp e
      → BindsRight e (power end.sym.token)
      → parse_expression c functions (suc (steps e + j)) rbp (at p lx code)
        ≡ complete_expression c functions j rbp (some (operand p.block e))
            (at p end (code ++ early p.block (length code) e))

  -- A tree behind which stands nothing that binds it more tightly is parsed as a whole.
  pub Continues-whole :
      (e : Expr) (j rbp : ℕ) (lx end : Lexer)
      → Continues e
      → bound e ≤ j
      → Runs c (first e ∷ others e) lx end
      → BindsLeft rbp e
      → BindsRight e (power end.sym.token)
      → power end.sym.token ≤ rbp
      → Parses (parsers c functions p j) rbp p e lx end
  Continues-whole e j rbp lx end h k run l r stop code =
      let fuel : j ≡ suc (steps e + suc (j - suc (suc (steps e)))) = omega arith in
      ap (λ n. parse_expression c functions n rbp (at p lx code)) fuel
      ∙ h (suc (j - suc (suc (steps e)))) rbp lx end code (omega arith) run l r
      ∙ complete_expression-stop c functions p (j - suc (suc (steps e))) rbp
          (some (operand p.block e)) end _ stop

  -- A tree whose left edge is another, behind which a led is called.
  pub Continues-led :
      (a : Expr) (j rbp : ℕ) (led : Led) (o : Operand) (lx mid next : Lexer) (code : List OpCode)
      (q : Parser)
      → Continues a
      → size a ≤ suc j
      → Runs c (first a ∷ others a) lx mid
      → BindsLeft rbp a
      → BindsRight a (power mid.sym.token)
      → led_of (prec mid.sym.token) ≡ some led
      → rbp < power mid.sym.token
      → Advances c mid next
      → run_led
          (parsers c functions p j)
          led
          (power mid.sym.token)
          mid.sym
          (some (operand p.block a))
          (at p next (code ++ early p.block (length code) a))
        ≡ parsed (some o) q
      → parse_expression c functions (suc (suc (steps a) + j)) rbp (at p lx code)
        ≡ complete_expression c functions j rbp (some o) q
  Continues-led a j rbp led o lx mid next code q h k run l r led_is lt s step =
      let fuel : suc (steps a) + j ≡ steps a + suc j = omega arith in
      ap (λ n. parse_expression c functions (suc n) rbp (at p lx code)) fuel
      ∙ h (suc j) rbp lx mid code k run l r
      ∙ complete_expression-step c functions p j rbp (some (operand p.block a)) mid next _ led o q
          led_is lt s step

  -- A tree with no operator on its left edge asks for no more.
  pub no_steps :
      (j rbp : ℕ) (q : Parser)
      → parse_expression c functions (suc (0 + j)) rbp q
        ≡ parse_expression c functions (suc j) rbp q
  no_steps j rbp q =
      let fuel : 0 + j ≡ j = omega arith in
      ap (λ n. parse_expression c functions (suc n) rbp q) fuel

  -- An operator between two trees, whose led parses the second.
  pub Continues-operator :
      (a b : Expr) (t : Token) (e : Token → Expr) (j rbp : ℕ) (led : Led) (lx end : Lexer)
      (code : List OpCode)
      → Continues a
      → Continues b
      → size a ≤ suc j
      → bound b ≤ j
      → Runs c ((first a ∷ others a) ++ (word t ∷ first b ∷ others b)) lx end
      → led_of (prec t) ≡ some led
      → BindsRight a (power t)
      → BindsLeft (power t) b
      → rbp < power t
      → BindsLeft rbp a
      → power end.sym.token ≤ power t
      → BindsRight b (power end.sym.token)
      → ((s : Sym) (next : Lexer)
          → Parses (parsers c functions p j) (power s.token) p b next end
          → run_led
              (parsers c functions p j)
              led
              (power s.token)
              s
              (some (operand p.block a))
              (at p next (code ++ early p.block (length code) a))
            ≡ parsed (some value) (at p end (code ++ early p.block (length code) (e s.token))))
      → parse_expression c functions (suc (suc (steps a) + j)) rbp (at p lx code)
        ≡ complete_expression c functions j rbp
            (some value)
            (at p end (code ++ early p.block (length code) (e t)))
  Continues-operator a b t e j rbp led lx end code ha hb ka kb run led_is r l lt bl m br step =
      let (mid, ra, (tok, (next, s, rb))) =
        Runs-append c (first a ∷ others a) (word t ∷ first b ∷ others b) lx end run in
      let t' = mid.sym.token in
      let r' : BindsRight a (power t') = subst (λ u. BindsRight a (power u)) (sym tok) r in
      let l' : BindsLeft (power t') b = subst (λ u. BindsLeft (power u) b) (sym tok) l in
      let lt' : rbp < power t' = subst (λ u. rbp < power u) (sym tok) lt in
      let m' : power end.sym.token ≤ power t' =
        subst (λ u. power end.sym.token ≤ power u) (sym tok) m in
      let right : Parses (parsers c functions p j) (power t') p b next end =
        Continues-whole b j (power t') next end hb kb rb l' br m' in
      Continues-led a j rbp led value lx mid next code _ ha ka ra bl r'
        (ap (λ u. led_of (prec u)) tok ∙ led_is) lt' s (step mid.sym next right)
      ∙ ap
          (λ u.
            complete_expression c functions j rbp (some value)
              (at p end (code ++ early p.block (length code) (e u))))
          tok
