-- ===== src/Parser/Expression/Access.antt =====
-- Elements, members, names and parentheses: elementAccessLed, memberAccessLed, identifierNud and
-- parenNud of internal/parser/expression.go on the tokens of expressions.
use gescript.Base.{
  ◌≡◌, ap, ◌∙◌, some, inl, inr, Option-cases, Bool-cases, List, [], ◌++◌, Bytes, codes, str_eq,
  length, if◌then◌else◌,
}
use mathlib.Core.List.{append_assoc}
use gescript.Engine.Code.{OpCode}
use gescript.Parser.Token.{Lexer, gtok_rb, gtok_rp, gtok_identifier}
use gescript.Parser.Scope.{resolve_variable}
use gescript.Parser.State.{
  Parser, parsed, continue, ◌>>=◌, pure, refuse, bracket_expected, property_name_expected,
  parenthesis_expected, Operand, array_reference, member_reference,
}
use gescript.Parser.Expression.Shared.{
  Parsers, advance, or_nil, push_expression, is_identifier, is_rp, captured_or,
}
use gescript.Parser.Expression.Prefix.{variable_or, identifier_nud}
use gescript.Parser.Expression.Parens.{close_paren}
use gescript.Parser.Expression.Literals.{is_rb}
use gescript.Parser.Expression.Infix.{
  close_bracket, element_access_led, member_name, member_access_led,
}
use gescript.Parser.Expression.Syntax.{Expr, name, index, member}
use gescript.Parser.Expression.Code.{operand, early, full, named, AreInitialized}
use gescript.Parser.Expression.Steps.{Advances, at, advance-step}
use gescript.Parser.Expression.Pushes.{
  Parses, push_expression-full, push_eval_expression-full, length-full,
}

pub element_access_led-full :
    (ps : Parsers) (p : Parser) (a b : Expr) (lx bracket after : Lexer) (code : List OpCode)
    → Parses ps 0 p b lx bracket
    → bracket.sym.token ≡ gtok_rb
    → Advances ps.strconv bracket after
    → element_access_led ps
        (some (operand p.block a))
        (at p lx (code ++ early p.block (length code) a))
      ≡ parsed (some array_reference) (at p after (code ++ early p.block (length code) (index a b)))
unfolding element_access_led close_bracket early
element_access_led-full ps p a b lx bracket after code h tok s =
    let left = full p.block (length code) a in
    let right = full p.block (length (code ++ left)) b in
    ap (λ r. continue r λ ok. or_nil ok (push_expression ps 0 >>= close_bracket ps))
      (push_eval_expression-full p a lx code)
    ∙ ap (λ r. continue r (close_bracket ps))
        (push_expression-full ps 0 p b lx bracket (code ++ left) h)
    ∙ ap
        (λ t.
          (if is_rb t
              then advance ps.strconv (pure (some array_reference))
              else refuse bracket_expected)
            (at p bracket ((code ++ left) ++ right)))
        tok
    ∙ advance-step ps.strconv p bracket after ((code ++ left) ++ right)
        (pure (some array_reference)) s
    ∙ ap (λ c. parsed (some array_reference) (at p after c))
        (append_assoc code left right
          ∙ ap (λ c. code ++ (left ++ c)) (length-full p.block a b code))

pub member_access_led-full :
    (ps : Parsers) (p : Parser) (a : Expr) (n : Bytes) (lx after : Lexer) (code : List OpCode)
    → lx.sym.token ≡ gtok_identifier
    → lx.sym.identifier ≡ n
    → Advances ps.strconv lx after
    → member_access_led ps
        (some (operand p.block a))
        (at p lx (code ++ early p.block (length code) a))
      ≡ parsed
          (some (member_reference n))
          (at p after (code ++ early p.block (length code) (member a n)))
unfolding member_access_led member_name early
member_access_led-full ps p a n lx after code tok ident s =
    let pushed = code ++ full p.block (length code) a in
    ap (λ r. continue r λ ok. or_nil ok (member_name ps)) (push_eval_expression-full p a lx code)
    ∙ ap
        (λ t.
          (if is_identifier t
              then advance ps.strconv (pure (some (member_reference lx.sym.identifier)))
              else refuse property_name_expected)
            (at p lx pushed))
        tok
    ∙ advance-step ps.strconv p lx after pushed (pure (some (member_reference lx.sym.identifier))) s
    ∙ ap (λ i. parsed (some (member_reference i)) (at p after pushed)) ident

-- A name in the program's own code, where there is no outer scope.
pub identifier_nud-named :
    (p : Parser) (n : Bytes) (lx : Lexer) (code : List OpCode)
    → p.captures.outers ≡ []
    → AreInitialized p.block (name n)
    → identifier_nud n (at p lx code) ≡ parsed (some (named p.block n)) (at p lx code)
unfolding identifier_nud variable_or captured_or
identifier_nud-named p n lx code outer h = elim (Bool-cases (str_eq n (codes "undefined"))) [
  | inl e ↦ rw (e)
  | inr e ↦ elim (Option-cases (resolve_variable p.block n)) [
    | inl f ↦ rw (e, f, outer)
    | inr (v, f) ↦ rw (e, f, h v f)
  ]
]

-- The parenthesis behind an expression.
pub close_paren-full :
    (ps : Parsers) (p : Parser) (o : Operand) (lx after : Lexer) (code : List OpCode)
    → lx.sym.token ≡ gtok_rp
    → Advances ps.strconv lx after
    → close_paren ps.strconv (some o) (at p lx code) ≡ parsed (some o) (at p after code)
unfolding close_paren is_rp
close_paren-full ps p o lx after code tok s =
    ap
      (λ t.
        (if is_rp t then advance ps.strconv (pure (some o)) else refuse parenthesis_expected)
          (at p lx code))
      tok
    ∙ advance-step ps.strconv p lx after code (pure (some o)) s
