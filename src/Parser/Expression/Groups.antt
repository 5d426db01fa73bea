-- ===== src/Parser/Expression/Groups.antt =====
-- Parentheses under the expression parser (internal/parser/expression.go).
use gescript.Base.{
  ℕ, suc, ◌≤◌, ◌≡◌, sym, ap, ◌∙◌, Bool, true, false, Option, none, some, List, [], ◌∷◌, ◌++◌,
  length, arith, inl, inr, Bool-cases, if◌then◌else◌,
}
use mathlib.Core.Path.{subst}
use gescript.Types.Convert.{Strconv}
use gescript.Engine.Code.{OpCode}
use gescript.Parser.Token.{Lexer, gtok_rp}
use gescript.Parser.State.{
  Parser, parsed, continue, Operand, Parse, ◌>>=◌, pure, refuse, empty_parentheses,
}
use gescript.Parser.Expression.{FunctionParser, run_nud, parse_expression, complete_expression}
use gescript.Parser.Expression.Precedence.{prec, Led, infix_led}
use gescript.Parser.Expression.Precedence
use gescript.Parser.Expression.Syntax.{
  Expr, name, group, word, first, others, power, nud_of, BindsRight, IsWritten, steps, size, bound,
  power_of,
}
use gescript.Parser.Expression.Code.{operand, early, AreInitialized}
use gescript.Parser.Expression.Steps.{
  Advances, Runs, Runs-append, at, parsers, parse_expression-step, lex_token-step,
}
use gescript.Parser.Expression.Pushes.{Parses}
use gescript.Parser.Expression.Access.{identifier_nud-named, close_paren-full}
use gescript.Parser.Expression.Shared.{advance, is_identifier, is_list}
use gescript.Parser.Expression.Parens.{
  arrow_or, paren_nud, paren_identifier, paren_names, parse_expression_with_identifier, close_paren,
}
use gescript.Parser.Expression.Edges.{
  first-opens, first-initialized, second-opens, is_identifier→token,
}
use gescript.Parser.Expression.Continues.{Continues, Continues-whole, no_steps}

module _ (c : Strconv) (functions : FunctionParser) (p : Parser)
    (outer : p.captures.outers ≡ []) where
  -- What begins with a name in parentheses, with another token than that of a list behind it, is parsed
  -- as it is outside.
  paren_identifier-expression :
      (j : ℕ) (lx next : Lexer) (code : List OpCode)
      → is_identifier lx.sym.token ≡ true
      → Advances c lx next
      → is_list next.sym.token ≡ false
      → AreInitialized p.block (name lx.sym.identifier)
      → paren_identifier (parsers c functions p j) lx.sym.identifier (at p lx code)
        ≡ continue (parse_expression c functions (suc j) 0 (at p lx code)) (close_paren c)
  unfolding paren_identifier parse_expression_with_identifier run_nud nud_of prec
  paren_identifier-expression j lx next code i s opens ok =
      let ps = parsers c functions p j in
      let ident = lx.sym.identifier in
      let inside : Parse (Option Operand) =
        parse_expression_with_identifier ps 0 ident >>= close_paren c in
      let result = identifier_nud-named p ident next code outer ok in
      ap (λ r. continue r λ token. if is_list token then paren_names ps ident token else inside)
        (lex_token-step c p lx next code s)
      ∙ ap (λ b. (if b then paren_names ps ident next.sym.token else inside) (at p next code)) opens
      ∙ ap
          (λ r.
            continue
              (continue r λ left. elim left [
                | none ↦ pure none
                | some o ↦ complete_expression c functions j 0 (some o)
              ])
              (close_paren c))
          result
      ∙ sym (
          ap (λ r. continue r (close_paren c))
            (parse_expression-step c functions p j 0 Precedence.identifier_nud lx next code
                (ap (λ t. nud_of (prec t)) (is_identifier→token lx.sym.token i)) s
              ∙ ap (λ m. continue m (complete_expression c functions j 0)) result))

  paren_nud-full :
      (a : Expr) (j : ℕ) (lx paren end : Lexer) (code : List OpCode)
      → IsWritten (group a)
      → AreInitialized p.block a
      → Continues c functions p outer a
      → bound a ≤ j
      → Runs c (first a ∷ others a) lx paren
      → paren.sym.token ≡ gtok_rp
      → Advances c paren end
      → paren_nud (parsers c functions p j) (at p lx code)
        ≡ parsed (some (operand p.block a)) (at p end (code ++ early p.block (length code) a))
  unfolding paren_nud prec power_of is_list
  paren_nud-full a j lx paren end code (compound, l, r, w) ok h k (is, (next, s, run)) is_paren s' =
      let ps = parsers c functions p j in
      let (ends, opens) = first-opens a lx.sym w is in
      let r' : BindsRight a (power paren.sym.token) =
        subst (λ u. BindsRight a (power u)) (sym is_paren) r in
      let stop : power paren.sym.token ≤ 0 =
        subst (λ u. power u ≤ 0) (sym is_paren) (omega arith) in
      let inside : (i : ℕ) → bound a ≤ i → Parses (parsers c functions p i) 0 p a lx paren = λ i k.
        Continues-whole c functions p outer a i 0 lx paren h k (is, (next, s, run)) l r' stop in
      let close =
        close_paren-full ps p (operand p.block a) paren end (code ++ early p.block (length code) a)
          is_paren s' in
      let expression : Parse (Option Operand) =
        parse_expression c functions j 0 >>= close_paren c in
      let empty : Parse (Option Operand) = advance c (arrow_or ps [] (refuse empty_parentheses)) in
      let start : Bool → Bool → Parse (Option Operand) = λ is_end is_name.
        if is_end
        then empty
        else if is_name
        then paren_identifier ps lx.sym.identifier
        else expression in
      ap (λ b. start b (is_identifier lx.sym.token) (at p lx code)) opens
      ∙ elim (Bool-cases (is_identifier lx.sym.token)) [
        | inl i ↦
            ap (λ b. start false b (at p lx code)) i
            ∙ paren_identifier-expression j lx next code i s
                (second-opens c a lx.sym next paren w is i run (inl compound))
                (first-initialized p.block a lx.sym w is i ok)
            ∙ ap (λ r. continue r (close_paren c)) (inside (suc j) (omega arith) code)
            ∙ close
        | inr i ↦
            ap (λ b. start false b (at p lx code)) i
            ∙ ap (λ r. continue r (close_paren c)) (inside j k code)
            ∙ close
      ]

  pub group-Continues :
      (a : Expr)
      → IsWritten (group a)
      → AreInitialized p.block a
      → Continues c functions p outer a
      → Continues c functions p outer (group a)
  unfolding steps size first others operand early run_nud prec nud_of
  group-Continues a w ok h j rbp lx end code k (tok, (next, s, run)) l r =
      let (paren, ra, (is_paren, (x, s', e))) =
        Runs-append c (first a ∷ others a) (word gtok_rp ∷ []) next end run in
      no_steps c functions p outer j rbp (at p lx code)
      ∙ parse_expression-step c functions p j rbp Precedence.paren_nud lx next code
          (ap (λ t. nud_of (prec t)) tok) s
      ∙ ap (λ m. continue m (complete_expression c functions j rbp))
          (paren_nud-full a j next paren end code w ok h (omega arith) ra is_paren
            (subst (Advances c paren) e s'))
