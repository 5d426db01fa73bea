-- ===== src/Parser/Expression/Jumps.antt =====
-- The code of the operators that jump, whose targets are set when they are known: logicalAndLed,
-- logicalOrLed and ternaryLed of internal/parser/expression.go.
use gescript.Base.{
  ℕ, suc, ◌+◌, ◌≡◌, sym, ap, ◌∙◌, true, false, Option, none, some, List, [], ◌∷◌, ◌++◌, set, length,
  length-append, set-append, if◌then◌else◌, arith,
}
use mathlib.Core.List.{append_assoc}
use gescript.Engine.Code.{OpCode}
use gescript.Parser.Token.{Lexer, gtok_colon}
use gescript.Parser.State.{
  Parser, Parse, parsed, continue, ◌>>=◌, pure, push_op_code, patch, refuse, ternary_colon_expected,
  lex_token, Operand, value,
}
use gescript.Parser.Expression.Shared.{Parsers, or_nil, push_expression}
use gescript.Parser.Expression.Infix.{
  land, logical, is_colon, is_end, ternary_else, ternary_then, ternary_led,
}
use gescript.Parser.Expression.Syntax.{Expr, choice}
use gescript.Parser.Expression.Code.{operand, early, full}
use gescript.Parser.Expression.Steps.{Advances, at, lex_token-step}
use gescript.Parser.Expression.Pushes.{Parses, push_expression-full, push_eval_expression-full}

-- The place behind an operation that follows some code.
behind :
    (code left : List OpCode) (op : OpCode)
    → length ((code ++ left) ++ op ∷ []) ≡ suc (length code + length left)
behind code left op =
    length-append (code ++ left) (op ∷ []) ∙ ap (λ n. n + 1) (length-append code left) ∙ omega arith

-- A logical operator.
pub logical-full :
    (ps : Parsers) (lbp : ℕ) (jump : ℕ → OpCode) (p : Parser) (a b : Expr) (lx after : Lexer)
    (code : List OpCode)
    → Parses ps lbp p b lx after
    → let left : List OpCode = full p.block (length code) a in
      let right : List OpCode = full p.block (suc (length code + length left)) b in
      logical ps lbp jump
        (some (operand p.block a))
        (at p lx (code ++ early p.block (length code) a))
      ≡ parsed (some value) (
          at p after
            (code ++ (left ++ (jump (suc (length code + length left) + length right) ∷ right))))
unfolding logical land push_op_code patch
logical-full ps lbp jump p a b lx after code h =
    let left = full p.block (length code) a in
    let right = full p.block (suc (length code + length left)) b in
    let start = (code ++ left) ++ jump 0 ∷ [] in
    ap
      (λ r. continue r λ ok.
        or_nil ok
          (push_op_code (jump 0) >>= λ jmp_end. push_expression ps lbp >>= land jmp_end jump))
      (push_eval_expression-full p a lx code)
    ∙ ap (λ r. continue r (land (length (code ++ left)) jump))
        (push_expression-full ps lbp p b lx after start h
          ∙ ap (λ n. parsed true (at p after (start ++ full p.block n b)))
              (behind code left (jump 0)))
    ∙ ap (λ c. parsed (some value) (at p after c))
        (set-append (code ++ left) right (jump 0) _
          ∙ append_assoc code left _
          ∙ ap (λ n. code ++ (left ++ (jump n ∷ right)))
              (length-append start right ∙ ap (λ n. n + length right) (behind code left (jump 0))))

-- From the colon of a ternary on, the jump to whose end is the last operation so far.
ternary_else-full :
    (ps : Parsers) (lbp : ℕ) (p : Parser) (d : Expr) (lx mid after : Lexer) (code : List OpCode)
    → lx.sym.token ≡ gtok_colon
    → Advances ps.strconv lx mid
    → is_end mid.sym.token ≡ false
    → Parses ps lbp p d mid after
    → let other : List OpCode = full p.block (suc (length code)) d in
      ternary_else ps lbp (length code) (at p lx (code ++ OpCode.jump 0 ∷ []))
      ≡ parsed
          (some value)
          (at p after (code ++ (OpCode.jump (suc (length code) + length other) ∷ other)))
unfolding ternary_else is_colon land patch
ternary_else-full ps lbp p d lx mid after code colon s end h =
    let start = code ++ OpCode.jump 0 ∷ [] in
    let place : length start ≡ suc (length code) =
      length-append code (OpCode.jump 0 ∷ []) ∙ omega arith in
    let other = full p.block (suc (length code)) d in
    let rest : Parse (Option Operand) = push_expression ps lbp >>= land (length code) OpCode.jump in
    let next : Parse (Option Operand) =
      lex_token ps.strconv >>= λ token. if is_end token then pure none else rest in
    ap (λ b. (if b then next else refuse ternary_colon_expected) (at p lx start))
      (ap is_colon colon)
    ∙ ap (λ r. continue r λ token. if is_end token then pure none else rest)
        (lex_token-step ps.strconv p lx mid start s)
    ∙ ap (λ b. (if b then pure none else rest) (at p mid start)) end
    ∙ ap (λ r. continue r (land (length code) OpCode.jump))
        (push_expression-full ps lbp p d mid after start h
          ∙ ap (λ n. parsed true (at p after (start ++ full p.block n d))) place)
    ∙ ap (λ c. parsed (some value) (at p after c))
        (set-append code other (OpCode.jump 0) _
          ∙ ap (λ n. code ++ (OpCode.jump n ∷ other))
              (length-append start other ∙ ap (λ n. n + length other) place))

-- The same from the end of the first expression on, the jump over which has a place.
ternary_then-full :
    (ps : Parsers) (lbp : ℕ) (p : Parser) (d : Expr) (lx mid after : Lexer)
    (code picked : List OpCode)
    → lx.sym.token ≡ gtok_colon
    → Advances ps.strconv lx mid
    → is_end mid.sym.token ≡ false
    → Parses ps lbp p d mid after
    → let place : ℕ = suc (suc (length code) + length picked) in
      let other : List OpCode = full p.block place d in
      ternary_then ps lbp
        (length code)
        true
        (at p lx ((code ++ OpCode.jump_if_false 0 ∷ []) ++ picked))
      ≡ parsed (some value) (
          at p after (
            code
            ++ (OpCode.jump_if_false place
                ∷ (picked ++ (OpCode.jump (place + length other) ∷ other)))))
unfolding ternary_then push_op_code patch
ternary_then-full ps lbp p d lx mid after code picked colon s end h =
    let place = suc (suc (length code) + length picked) in
    let start = code ++ OpCode.jump_if_false 0 ∷ [] in
    let m = code ++ (OpCode.jump_if_false place ∷ picked) in
    let at_start : length (start ++ picked) ≡ suc (length code) + length picked =
      length-append start picked
      ∙ ap (λ n. n + length picked)
          (length-append code (OpCode.jump_if_false 0 ∷ []) ∙ omega arith) in
    let at_end : length ((start ++ picked) ++ OpCode.jump 0 ∷ []) ≡ place =
      length-append (start ++ picked) (OpCode.jump 0 ∷ [])
      ∙ ap (λ n. n + 1) at_start
      ∙ omega arith in
    let at_m : length m ≡ suc (length code) + length picked =
      length-append code (OpCode.jump_if_false place ∷ picked) ∙ omega arith in
    let shape : set ((start ++ picked) ++ OpCode.jump 0 ∷ []) (length code)
          (OpCode.jump_if_false (length ((start ++ picked) ++ OpCode.jump 0 ∷ [])))
        ≡ m ++ OpCode.jump 0 ∷ [] =
      ap (λ n. set ((start ++ picked) ++ OpCode.jump 0 ∷ []) (length code) (OpCode.jump_if_false n))
        at_end
      ∙ ap (λ c. set c (length code) (OpCode.jump_if_false place))
          (append_assoc start picked (OpCode.jump 0 ∷ []))
      ∙ set-append code (picked ++ OpCode.jump 0 ∷ []) (OpCode.jump_if_false 0)
          (OpCode.jump_if_false place)
      ∙ sym (append_assoc code (OpCode.jump_if_false place ∷ picked) (OpCode.jump 0 ∷ [])) in
    ap (λ c. ternary_else ps lbp (length (start ++ picked)) (at p lx c)) shape
    ∙ ap (λ n. ternary_else ps lbp n (at p lx (m ++ OpCode.jump 0 ∷ []))) (at_start ∙ sym at_m)
    ∙ ternary_else-full ps lbp p d lx mid after m colon s end h
    ∙ ap
        (λ n. parsed (some value) (
          at p after (
            m ++ (OpCode.jump (suc n + length (full p.block (suc n) d)) ∷ full p.block (suc n) d))))
        at_m
    ∙ ap (λ c. parsed (some value) (at p after c))
        (append_assoc code (OpCode.jump_if_false place ∷ picked) _)

-- A ternary behind its first question mark.
pub ternary_led-full :
    (ps : Parsers) (lbp : ℕ) (p : Parser) (a b d : Expr) (lx colon mid after : Lexer)
    (code : List OpCode)
    → Parses ps 0 p b lx colon
    → colon.sym.token ≡ gtok_colon
    → Advances ps.strconv colon mid
    → is_end mid.sym.token ≡ false
    → Parses ps lbp p d mid after
    → ternary_led ps lbp
        (some (operand p.block a))
        (at p lx (code ++ early p.block (length code) a))
      ≡ parsed (some value) (at p after (code ++ early p.block (length code) (choice a b d)))
unfolding ternary_led push_op_code early
ternary_led-full ps lbp p a b d lx colon mid after code h is_col s end g =
    let test = full p.block (length code) a in
    let picked = full p.block (suc (length code + length test)) b in
    let start = (code ++ test) ++ OpCode.jump_if_false 0 ∷ [] in
    let shape : ℕ → List OpCode = λ n.
      let place = suc (suc n + length picked) in
      let other = full p.block place d in
      OpCode.jump_if_false place ∷ (picked ++ (OpCode.jump (place + length other) ∷ other)) in
    ap
      (λ r. continue r λ ok. or_nil ok (
        push_op_code (OpCode.jump_if_false 0) >>= λ jmp_false.
        push_expression ps 0 >>= ternary_then ps lbp jmp_false))
      (push_eval_expression-full p a lx code)
    ∙ ap (λ r. continue r (ternary_then ps lbp (length (code ++ test))))
        (push_expression-full ps 0 p b lx colon start h
          ∙ ap (λ n. parsed true (at p colon (start ++ full p.block n b)))
              (behind code test (OpCode.jump_if_false 0)))
    ∙ ternary_then-full ps lbp p d colon mid after (code ++ test) picked is_col s end g
    ∙ ap (λ n. parsed (some value) (at p after ((code ++ test) ++ shape n)))
        (length-append code test)
    ∙ ap (λ c. parsed (some value) (at p after c)) (append_assoc code test _)
