-- ===== src/Parser/Expression/Operands.antt =====
-- Literals, names and parentheses under the expression parser (internal/parser/expression.go).
use gescript.Base.{◌≡◌, refl, sym, ap, ◌∙◌, some, [], Bytes}
use mathlib.Core.List.{append-nil}
use gescript.Types.Value.{DataType}
use gescript.Types.Convert.{Strconv}
use gescript.Parser.Token.{Sym, gtok_literal}
use gescript.Parser.State.{Parser, continue, literal}
use gescript.Parser.Expression.{FunctionParser, run_nud, complete_expression}
use gescript.Parser.Expression.Precedence.{prec, Led, infix_led}
use gescript.Parser.Expression.Precedence
use gescript.Parser.Expression.Prefix
use gescript.Parser.Expression.Syntax.{constant, name, first, others, nud_of, steps}
use gescript.Parser.Expression.Code.{operand, early, named, AreInitialized}
use gescript.Parser.Expression.Steps.{at, parse_expression-step}
use gescript.Parser.Expression.Access.{identifier_nud-named}
use gescript.Parser.Expression.Continues.{Continues, no_steps}

literal_nud-literal : (s : Sym) → s.token ≡ gtok_literal → Prefix.literal_nud s ≡ literal s.literal
unfolding Prefix.literal_nud
literal_nud-literal s h = rw (h, Prefix.literal_nud) refl

module _ (c : Strconv) (functions : FunctionParser) (p : Parser)
    (outer : p.captures.outers ≡ []) where
  pub constant-Continues : (v : DataType) → Continues c functions p outer (constant v)
  unfolding steps first others operand early run_nud nud_of prec
  constant-Continues v j rbp lx end code k ((tok, is), (after, s, e)) l r =
      no_steps c functions p outer j rbp (at p lx code)
      ∙ parse_expression-step c functions p j rbp Precedence.literal_nud lx after code
          (ap (λ t. nud_of (prec t)) tok) s
      ∙ ap (λ o. complete_expression c functions j rbp (some o) (at p after code))
          (literal_nud-literal lx.sym tok ∙ ap literal is)
      ∙ ap (λ x. complete_expression c functions j rbp (some (literal v)) (at p x code)) e
      ∙ ap (λ x. complete_expression c functions j rbp (some (literal v)) (at p end x))
          (sym (append-nil code))

  pub name-Continues :
      (n : Bytes) → AreInitialized p.block (name n) → Continues c functions p outer (name n)
  unfolding steps first others operand early run_nud nud_of prec
  name-Continues n ok j rbp lx end code k ((tok, is), (after, s, e)) l r =
      no_steps c functions p outer j rbp (at p lx code)
      ∙ parse_expression-step c functions p j rbp Precedence.identifier_nud lx after code
          (ap (λ t. nud_of (prec t)) tok) s
      ∙ ap
          (λ m.
            continue (Prefix.identifier_nud m (at p after code))
              (complete_expression c functions j rbp))
          is
      ∙ ap (λ m. continue m (complete_expression c functions j rbp))
          (identifier_nud-named p n after code outer ok)
      ∙ ap (λ x. complete_expression c functions j rbp (some (named p.block n)) (at p x code)) e
      ∙ ap (λ x. complete_expression c functions j rbp (some (named p.block n)) (at p end x))
          (sym (append-nil code))
