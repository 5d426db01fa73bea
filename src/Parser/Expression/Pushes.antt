-- ===== src/Parser/Expression/Pushes.antt =====
-- The code that the functions of the table add (internal/parser/expression.go and pushEvalExpression
-- of internal/parser/parser.go), once it is known what their operands add.
use gescript.Base.{
  ℕ, ◌+◌, ◌≡◌, refl, sym, ap, ◌∙◌, true, Option, none, some, inl, inr, Option-cases, List, ◌++◌,
  Bytes, length, length-append, codes, str_eq, Bool-cases,
}
use mathlib.Core.List.{append_assoc, append-nil}
use gescript.Engine.Code.{OpCode}
use gescript.Parser.Token.{Token, Lexer}
use gescript.Parser.Scope.{Variable, BlockContext, resolve_variable}
use gescript.Parser.State.{
  Parser, parsed, continue, ◌>>=◌, push_op_code, Operand, literal, value, array_reference,
  identifier, global_reference, member_reference, capture_reference, push_variable,
  push_eval_expression,
}
use gescript.Parser.Expression.Shared.{Parsers, or_nil, push_expression, push_value}
use gescript.Parser.Expression.Prefix.{unary_op, push_case, unary_nud}
use gescript.Parser.Expression.Infix.{infix_op, infix_led}
use gescript.Parser.Expression.Syntax.{
  Expr, constant, name, prefix, binary, both, either, choice, group, index, member,
}
use gescript.Parser.Expression.Code.{late, operand, early, full, named, variable_code, case_code}
use gescript.Parser.Expression.Steps.{at}

-- An identifier is that of a variable.
abbrev pub IsKnown : List BlockContext → Operand → Type 0
IsKnown block (identifier n) = (v : Variable) × (resolve_variable block n ≡ some v)
IsKnown block _ = Unit

named-IsKnown : (block : List BlockContext) (n : Bytes) → IsKnown block (named block n)
named-IsKnown block n = elim (Bool-cases (str_eq n (codes "undefined"))) [
  | inl h ↦ rw (h) tt
  | inr h ↦ elim (Option-cases (resolve_variable block n)) [
    | inl e ↦ rw (h, e) tt
    | inr (v, e) ↦ rw (h, e) (v, e)
  ]
]

pub operand-IsKnown : (block : List BlockContext) (e : Expr) → IsKnown block (operand block e)
unfolding operand
operand-IsKnown block (constant v) = tt
operand-IsKnown block (name n) = named-IsKnown block n
operand-IsKnown block (prefix t a) = tt
operand-IsKnown block (binary t a b) = tt
operand-IsKnown block (both t a b) = tt
operand-IsKnown block (either t a b) = tt
operand-IsKnown block (choice a b d) = tt
operand-IsKnown block (group a) = operand-IsKnown block a
operand-IsKnown block (index a b) = tt
operand-IsKnown block (member a n) = tt

pub push_eval_expression-late :
    (p : Parser) (o : Operand) (lx : Lexer) (code : List OpCode)
    → IsKnown p.block o
    → push_eval_expression (some o) (at p lx code) ≡ parsed true (at p lx (code ++ late p.block o))
unfolding push_eval_expression push_variable push_op_code late
push_eval_expression-late p (literal v) lx code h = refl
push_eval_expression-late p value lx code h =
    ap (λ c. parsed true (at p lx c)) (sym (append-nil code))
push_eval_expression-late p array_reference lx code h = refl
push_eval_expression-late p (identifier n) lx code (v, h) =
    ap (λ o. push_variable n o (at p lx code)) h
    ∙ ap (λ o. parsed true (at p lx (code ++ variable_code o))) (sym h)
push_eval_expression-late p (global_reference n) lx code h = refl
push_eval_expression-late p (member_reference n) lx code h = refl
push_eval_expression-late p (capture_reference i) lx code h = refl

-- The parser's callback parses a tree, whatever the code is so far.
abbrev pub Parses : Parsers → ℕ → Parser → Expr → Lexer → Lexer → Type 0
Parses ps rbp p e lx after =
    (code : List OpCode)
    → ps.parse_expression rbp (at p lx code)
      ≡ parsed (some (operand p.block e)) (at p after (code ++ early p.block (length code) e))

pub push_expression-full :
    (ps : Parsers) (rbp : ℕ) (p : Parser) (e : Expr) (lx after : Lexer) (code : List OpCode)
    → Parses ps rbp p e lx after
    → push_expression ps rbp (at p lx code)
      ≡ parsed true (at p after (code ++ full p.block (length code) e))
unfolding push_expression
push_expression-full ps rbp p e lx after code h =
    ap (λ r. continue r push_eval_expression) (h code)
    ∙ push_eval_expression-late p (operand p.block e) after (code ++ early p.block (length code) e)
        (operand-IsKnown p.block e)
    ∙ ap (λ c. parsed true (at p after c))
        (append_assoc code (early p.block (length code) e) (late p.block (operand p.block e)))

pub push_eval_expression-full :
    (p : Parser) (e : Expr) (lx : Lexer) (code : List OpCode)
    → push_eval_expression
        (some (operand p.block e))
        (at p lx (code ++ early p.block (length code) e))
      ≡ parsed true (at p lx (code ++ full p.block (length code) e))
push_eval_expression-full p e lx code =
    push_eval_expression-late p (operand p.block e) lx (code ++ early p.block (length code) e)
      (operand-IsKnown p.block e)
    ∙ ap (λ c. parsed true (at p lx c))
        (append_assoc code (early p.block (length code) e) (late p.block (operand p.block e)))

push_case-code :
    (p : Parser) (o : Option OpCode) (lx : Lexer) (code : List OpCode)
    → push_case o (at p lx code) ≡ parsed (some value) (at p lx (code ++ case_code o))
unfolding push_case push_value push_op_code
push_case-code p none lx code = ap (λ c. parsed (some value) (at p lx c)) (sym (append-nil code))
push_case-code p (some op) lx code = refl

-- A prefix operator, behind which the expression stands.
pub unary_nud-full :
    (ps : Parsers) (lbp : ℕ) (t : Token) (p : Parser) (a : Expr) (lx after : Lexer)
    (code : List OpCode)
    → Parses ps lbp p a lx after
    → unary_nud ps lbp t (at p lx code)
      ≡ parsed (some value) (at p after (code ++ early p.block (length code) (prefix t a)))
unfolding unary_nud early
unary_nud-full ps lbp t p a lx after code h =
    ap (λ r. continue r λ ok. or_nil ok (push_case (unary_op t)))
      (push_expression-full ps lbp p a lx after code h)
    ∙ push_case-code p (unary_op t) after (code ++ full p.block (length code) a)
    ∙ ap (λ c. parsed (some value) (at p after c))
        (append_assoc code (full p.block (length code) a) (case_code (unary_op t)))

-- The code behind that of a left side.
pub length-full :
    (block : List BlockContext) (a b : Expr) (code : List OpCode)
    → full block (length (code ++ full block (length code) a)) b
      ≡ full block (length code + length (full block (length code) a)) b
length-full block a b code =
    ap (λ n. full block n b) (length-append code (full block (length code) a))

-- A binary operator.
pub infix_led-full :
    (ps : Parsers) (lbp : ℕ) (t : Token) (p : Parser) (a b : Expr) (lx after : Lexer)
    (code : List OpCode)
    → Parses ps lbp p b lx after
    → infix_led ps lbp t
        (some (operand p.block a))
        (at p lx (code ++ early p.block (length code) a))
      ≡ parsed (some value) (at p after (code ++ early p.block (length code) (binary t a b)))
unfolding infix_led early
infix_led-full ps lbp t p a b lx after code h =
    let left = full p.block (length code) a in
    ap
      (λ r.
        continue r λ ok.
          or_nil ok (push_expression ps lbp >>= λ right. or_nil right (push_case (infix_op t))))
      (push_eval_expression-full p a lx code)
    ∙ ap (λ r. continue r λ right. or_nil right (push_case (infix_op t)))
        (push_expression-full ps lbp p b lx after (code ++ left) h)
    ∙ push_case-code p (infix_op t) after ((code ++ left) ++ full p.block (length (code ++ left)) b)
    ∙ ap (λ c. parsed (some value) (at p after c))
        (ap (λ c. ((code ++ left) ++ c) ++ case_code (infix_op t)) (length-full p.block a b code)
          ∙ ap (λ c. c ++ case_code (infix_op t))
              (append_assoc code left (full p.block (length code + length left) b))
          ∙ append_assoc code (left ++ full p.block (length code + length left) b)
              (case_code (infix_op t)))
