-- ===== src/Parser/Expression/Correct.antt =====
-- The expression parser on the tokens of a tree (parseExpression of internal/parser/expression.go), in
-- the program's own code, where no function is around it.
use gescript.Base.{
  ℕ, suc, ◌≤◌, ◌≡◌, sym, ap, ◌∙◌, some, [], ◌∷◌, ◌++◌, length, length-append, ◌*◌, arith,
}
use mathlib.Core.Path.{subst}
use mathlib.Core.List.{append_assoc}
use gescript.Types.Convert.{Strconv}
use gescript.Parser.Token.{Lexer, gtok_rp, gtok_lb, gtok_rb, gtok_dot, gtok_qmark, gtok_colon}
use gescript.Parser.State.{Parser, parsed, value}
use gescript.Parser.Expression.{FunctionParser, parse_expression}
use gescript.Parser.Expression.Syntax.{
  Expr, constant, name, prefix, binary, both, either, choice, group, index, member, word, ident,
  first, others, power, BindsLeft, BindsRight, IsWritten, steps, size, bound,
}
use gescript.Parser.Expression.Code.{operand, early, AreInitialized}
use gescript.Parser.Expression.Steps.{Runs}
use gescript.Parser.Expression.Continues.{Continues, Continues-whole}
use gescript.Parser.Expression.Operands.{constant-Continues, name-Continues}
use gescript.Parser.Expression.Groups.{group-Continues}
use gescript.Parser.Expression.Operators.{
  prefix-Continues, binary-Continues, both-Continues, either-Continues,
}
use gescript.Parser.Expression.Accesses.{index-Continues, member-Continues, choice-Continues}

module _ (c : Strconv) (functions : FunctionParser) (p : Parser)
    (outer : p.captures.outers ≡ []) where
  pub expression-Continues :
      (e : Expr) → IsWritten e → AreInitialized p.block e → Continues c functions p outer e
  expression-Continues (constant v) w i = constant-Continues c functions p outer v
  expression-Continues (name n) w i = name-Continues c functions p outer n i
  expression-Continues (prefix t a) (h, l, w) i =
      prefix-Continues c functions p outer t a (h, l, w) (expression-Continues a w i)
  expression-Continues (binary t a b) (h, r, l, wa, wb) (ia, ib) =
      binary-Continues c functions p outer t a b (h, r, l, wa, wb) (expression-Continues a wa ia)
        (expression-Continues b wb ib)
  expression-Continues (both t a b) (h, r, l, wa, wb) (ia, ib) =
      both-Continues c functions p outer t a b (h, r, l, wa, wb) (expression-Continues a wa ia)
        (expression-Continues b wb ib)
  expression-Continues (either t a b) (h, r, l, wa, wb) (ia, ib) =
      either-Continues c functions p outer t a b (h, r, l, wa, wb) (expression-Continues a wa ia)
        (expression-Continues b wb ib)
  expression-Continues (choice a b d) (r, lb, rb, ld, wa, wb, wd) (ia, ib, id) =
      choice-Continues c functions p outer a b d (r, lb, rb, ld, wa, wb, wd)
        (expression-Continues a wa ia) (expression-Continues b wb ib) (expression-Continues d wd id)
  expression-Continues (group a) (n, l, r, w) i =
      group-Continues c functions p outer a (n, l, r, w) i (expression-Continues a w i)
  expression-Continues (index a b) (r, lb, rb, wa, wb) (ia, ib) =
      index-Continues c functions p outer a b (r, lb, rb, wa, wb) (expression-Continues a wa ia)
        (expression-Continues b wb ib)
  expression-Continues (member a n) (r, w) i =
      member-Continues c functions p outer a n (r, w) (expression-Continues a w i)

-- The bound is at most three times the number of tokens.
pub bound-tokens : (e : Expr) → bound e ≤ 3 * suc (length (others e))
unfolding steps size others
bound-tokens (constant v) = omega arith
bound-tokens (name n) = omega arith
bound-tokens (prefix t a) = let h = bound-tokens a in omega arith
bound-tokens (binary t a b) =
    let h = bound-tokens a in
    let g = bound-tokens b in
    let l = length-append (others a) (word t ∷ first b ∷ others b) in omega arith
bound-tokens (both t a b) =
    let h = bound-tokens a in
    let g = bound-tokens b in
    let l = length-append (others a) (word t ∷ first b ∷ others b) in omega arith
bound-tokens (either t a b) =
    let h = bound-tokens a in
    let g = bound-tokens b in
    let l = length-append (others a) (word t ∷ first b ∷ others b) in omega arith
bound-tokens (choice a b d) =
    let h = bound-tokens a in
    let g = bound-tokens b in
    let f = bound-tokens d in
    let m = length-append (others b) (word gtok_colon ∷ first d ∷ others d) in
    let l =
      length-append (others a)
        (word gtok_qmark ∷ first b ∷ (others b ++ (word gtok_colon ∷ first d ∷ others d))) in
    omega arith
bound-tokens (group a) =
    let h = bound-tokens a in let l = length-append (others a) (word gtok_rp ∷ []) in omega arith
bound-tokens (index a b) =
    let h = bound-tokens a in
    let g = bound-tokens b in
    let m = length-append (others b) (word gtok_rb ∷ []) in
    let l = length-append (others a) (word gtok_lb ∷ first b ∷ (others b ++ (word gtok_rb ∷ []))) in
    omega arith
bound-tokens (member a n) =
    let h = bound-tokens a in
    let l = length-append (others a) (word gtok_dot ∷ ident n ∷ []) in omega arith

-- In the program's own code the parser of expressions takes the tokens of a tree of literals,
-- initialized names, prefix, binary and logical operators, choices, parentheses around more than
-- a name, elements and members, and emits the code of the tree, with its jumps to where its
-- parts end. The tree has parentheses where the powers of its operators ask for them, the
-- operators on its left edge bind more tightly than asked for, and what stands behind it binds
-- no more tightly than that and than the operators on its right edge; a bound of three for each
-- token is enough.
pub parse_expression-tree :
    (c : Strconv) (functions : FunctionParser) (e : Expr) (rbp k : ℕ) (p : Parser) (end : Lexer)
    → IsWritten e
    → AreInitialized p.block e
    → p.captures.outers ≡ []
    → BindsLeft rbp e
    → BindsRight e (power end.sym.token)
    → power end.sym.token ≤ rbp
    → Runs c (first e ∷ others e) p.lexer end
    → 3 * suc (length (others e)) ≤ k
    → parse_expression c functions k rbp p
      ≡ parsed
          (some (operand p.block e))
          (record p { lexer = end; code = p.code ++ early p.block (length p.code) e })
parse_expression-tree c functions e rbp k p end w i outer l r stop run fuel =
    let enough = bound-tokens e in
    Continues-whole c functions p outer e k rbp p.lexer end
      (expression-Continues c functions p outer e w i) (omega arith) run l r stop p.code

-- A choice in the last part of a choice has the tokens of one in its first part.
choice-tokens :
    (a b d f g : Expr)
    → first (choice a b (choice d f g)) ∷ others (choice a b (choice d f g))
      ≡ first (choice (choice a b d) f g) ∷ others (choice (choice a b d) f g)
unfolding first others
choice-tokens a b d f g =
    let behind_d =
      word gtok_qmark ∷ first f ∷ (others f ++ (word gtok_colon ∷ first g ∷ others g)) in
    ap (λ ts. first a ∷ ts)
      (ap (λ ts. others a ++ (word gtok_qmark ∷ first b ∷ ts))
          (sym (append_assoc (others b) (word gtok_colon ∷ first d ∷ others d) behind_d))
        ∙ sym (
            append_assoc (others a)
              (word gtok_qmark ∷ first b ∷ (others b ++ (word gtok_colon ∷ first d ∷ others d)))
              behind_d))

-- In the program's own code the tokens of a choice whose last part is a choice, written without
-- parentheses, are compiled as a choice whose first part is one. The other tree is then one with
-- parentheses where the powers ask for them, and what is asked for and what stands behind do not
-- bind into it.
pub parse_expression-choice_left :
    (c : Strconv) (functions : FunctionParser) (a b d f g : Expr) (rbp k : ℕ) (p : Parser)
    (end : Lexer)
    → IsWritten (choice (choice a b d) f g)
    → AreInitialized p.block (choice a b (choice d f g))
    → p.captures.outers ≡ []
    → BindsLeft rbp (choice (choice a b d) f g)
    → BindsRight g (power end.sym.token)
    → power end.sym.token ≤ rbp
    → Runs c (first (choice a b (choice d f g)) ∷ others (choice a b (choice d f g))) p.lexer end
    → 3 * suc (length (others (choice a b (choice d f g)))) ≤ k
    → parse_expression c functions k rbp p
      ≡ parsed (some value) (record p {
        lexer = end;
        code = p.code ++ early p.block (length p.code) (choice (choice a b d) f g);
      })
unfolding operand
parse_expression-choice_left c functions a b d f g rbp k p end w (ia, ib, (id, jf, ig)) outer
      (lt, l) r stop run fuel =
    let e = choice (choice a b d) f g in
    let enough : 3 * length (first e ∷ others e) ≤ k =
      subst (λ ts. 3 * length ts ≤ k) (choice-tokens a b d f g) fuel in
    parse_expression-tree c functions e rbp k p end w ((ia, ib, id), jf, ig) outer (lt, l)
      (omega arith, r) stop (subst (λ ts. Runs c ts p.lexer end) (choice-tokens a b d f g) run)
      enough
