-- ===== src/Parser/Expression/Accesses.antt =====
-- Elements, members and choices under the expression parser (internal/parser/expression.go).
use gescript.Base.{◌<◌, ◌≤◌, ◌≡◌, sym, ap, [], ◌∷◌, Bytes, arith}
use mathlib.Core.Path.{subst}
use gescript.Types.Convert.{Strconv}
use gescript.Parser.State.{Parser, value, array_reference, member_reference}
use gescript.Parser.Expression.{FunctionParser, run_led}
use gescript.Parser.Expression.Precedence.{prec, element_access_led, member_access_led, ternary_led}
use gescript.Parser.Expression.Syntax.{
  Expr, choice, index, member, word, first, others, power, led_of, BindsLeft, BindsRight, IsWritten,
  steps, size, power_of,
}
use gescript.Parser.Expression.Code.{operand}
use gescript.Parser.Expression.Steps.{Advances, Runs-append, parsers}
use gescript.Parser.Token.{gtok_rb, gtok_colon}
use gescript.Parser.Expression.Access.{element_access_led-full, member_access_led-full}
use gescript.Parser.Expression.Jumps.{ternary_led-full}
use gescript.Parser.Expression.Edges.{first-opens}
use gescript.Parser.Expression.Continues.{Continues, Continues-whole, Continues-led}

module _ (c : Strconv) (functions : FunctionParser) (p : Parser)
    (outer : p.captures.outers ≡ []) where
  pub index-Continues :
      (a b : Expr)
      → IsWritten (index a b)
      → Continues c functions p outer a
      → Continues c functions p outer b
      → Continues c functions p outer (index a b)
  unfolding steps size first others operand run_led prec led_of power_of
  index-Continues a b (r, lb, rb, wa, wb) ha hb j rbp lx end code k run (lt, bl) u =
      let (mid, ra, (tok, (next, s, rest))) = Runs-append c (first a ∷ others a) _ lx end run in
      let (bracket, run_b, (is_rb, (x, s', e))) =
        Runs-append c (first b ∷ others b) (word gtok_rb ∷ []) next end rest in
      let t = mid.sym.token in
      let r' : BindsRight a (power t) = subst (λ u. BindsRight a (power u)) (sym tok) r in
      let lt' : rbp < power t = subst (λ u. rbp < power u) (sym tok) lt in
      let rb' : BindsRight b (power bracket.sym.token) =
        subst (λ u. BindsRight b (power u)) (sym is_rb) rb in
      let stop : power bracket.sym.token ≤ 0 = subst (λ u. power u ≤ 0) (sym is_rb) (omega arith) in
      Continues-led c functions p outer a j rbp element_access_led array_reference lx mid next code
        _ ha (omega arith) ra bl r' (ap (λ u. led_of (prec u)) tok) lt' s
        (element_access_led-full (parsers c functions p j) p a b next bracket end code
          (Continues-whole c functions p outer b j 0 next bracket hb (omega arith) run_b lb rb'
            stop)
          is_rb (subst (Advances c bracket) e s'))

  pub member-Continues :
      (a : Expr) (n : Bytes)
      → IsWritten (member a n)
      → Continues c functions p outer a
      → Continues c functions p outer (member a n)
  unfolding steps size first others operand run_led prec led_of power_of
  member-Continues a n (r, wa) ha j rbp lx end code k run (lt, bl) u =
      let (mid, ra, (tok, (next, s, ((is_id, is_n), (x, s', e))))) =
        Runs-append c (first a ∷ others a) _ lx end run in
      let t = mid.sym.token in
      let r' : BindsRight a (power t) = subst (λ u. BindsRight a (power u)) (sym tok) r in
      let lt' : rbp < power t = subst (λ u. rbp < power u) (sym tok) lt in
      Continues-led c functions p outer a j rbp member_access_led (member_reference n) lx mid next
        code _ ha (omega arith) ra bl r' (ap (λ u. led_of (prec u)) tok) lt' s
        (member_access_led-full (parsers c functions p j) p a n next end code is_id is_n
          (subst (Advances c next) e s'))

  pub choice-Continues :
      (a b d : Expr)
      → IsWritten (choice a b d)
      → Continues c functions p outer a
      → Continues c functions p outer b
      → Continues c functions p outer d
      → Continues c functions p outer (choice a b d)
  unfolding steps size first others operand run_led prec led_of power_of
  choice-Continues a b d (r, lb, rb, ld, wa, wb, wd) ha hb hd j rbp lx end code k run (lt, bl)
        (m, br) =
      let (mid, ra, (tok, (next, s, rest))) = Runs-append c (first a ∷ others a) _ lx end run in
      let (colon, run_b, (is_col, (x, s', run_d))) =
        Runs-append c (first b ∷ others b) (word gtok_colon ∷ first d ∷ others d) next end rest in
      let t = mid.sym.token in
      let lbp : power t ≡ 20 = ap (λ u. power u) tok in
      let r' : BindsRight a (power t) = subst (BindsRight a) (sym lbp) r in
      let lt' : rbp < power t = omega arith in
      let ld' : BindsLeft (power t) d = subst (λ n. BindsLeft n d) (sym lbp) ld in
      let m' : power end.sym.token ≤ power t = omega arith in
      let rb' : BindsRight b (power colon.sym.token) =
        subst (λ u. BindsRight b (power u)) (sym is_col) rb in
      let stop : power colon.sym.token ≤ 0 = subst (λ u. power u ≤ 0) (sym is_col) (omega arith) in
      let (is_first, behind) = run_d in
      let (opens, no_rp) = first-opens d x.sym wd is_first in
      Continues-led c functions p outer a j rbp ternary_led value lx mid next code _ ha
        (omega arith) ra bl r' (ap (λ u. led_of (prec u)) tok) lt' s
        (ternary_led-full (parsers c functions p j) (power t) p a b d next colon x end code
          (Continues-whole c functions p outer b j 0 next colon hb (omega arith) run_b lb rb' stop)
          is_col s' opens
          (Continues-whole c functions p outer d j (power t) x end hd (omega arith) run_d ld' br
            m'))
