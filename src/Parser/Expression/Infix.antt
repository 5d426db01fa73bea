-- ===== src/Parser/Expression/Infix.antt =====
-- What goes on with an expression: the led functions of internal/parser/expression.go. A left side
-- of nil, which parseExpression passes on, is `none`.
use gescript.Base.{
  ℕ, ◌-◌, Bool, true, false, Option, none, some, List, [], ◌∷◌, Bytes, length, if◌then◌else◌,
}
use gescript.Engine.Code.{OpCode}
use gescript.Parser.Token.{
  Token, gtok_error, gtok_eof, gtok_colon, gtok_incr, gtok_add, gtok_sub, gtok_mult, gtok_div,
  gtok_mod, gtok_ltlt, gtok_gtgt, gtok_gtgtgt, gtok_lt, gtok_gt, gtok_lteq, gtok_gteq, gtok_eqeq,
  gtok_noteq, gtok_eqeqeq, gtok_noteqeq, gtok_and, gtok_or, gtok_xor, gtok_in, gtok_instanceof,
}
use gescript.Parser.Scope.{Variable, resolve_variable}
use gescript.Parser.State.{
  undefined_variable, cannot_reassign, invalid_arrow, invalid_assignment, invalid_postfix_operand,
  bracket_expected, property_name_expected, argument_separator_expected, ternary_colon_expected,
  Parse, panicked, ◌>>=◌, ◌>>◌, pure, gets, modify, refuse, lex_token, current, push_op_code, patch,
  Operand, value, identifier, global_reference, array_reference, member_reference,
  capture_reference, push_eval_expression,
}
use gescript.Parser.Expression.Shared.{
  Parsers, advance, or_nil, push_expression, push_value, initialize_variable, item_list, item_count,
  is_rp, is_identifier,
}
use gescript.Parser.Expression.Prefix.{
  Stepping, step_operand, is_const, parse_arrow_function_body, push_case,
}
use gescript.Parser.Expression.Literals.{is_rb}

-- Only a single name can stand before an arrow here; nil is dereferenced.
unfoldable pub arrow_led : Parsers → Option Operand → Parse (Option Operand)
arrow_led ps none = λ p. panicked
arrow_led ps (some (identifier name)) = parse_arrow_function_body ps (name ∷ [])
arrow_led ps (some (global_reference name)) = parse_arrow_function_body ps (name ∷ [])
arrow_led ps (some _) = refuse invalid_arrow

-- The right side of an assignment, and the operation that stores it.
unfoldable pub assign : Parsers → ℕ → OpCode → Parse (Option Operand)
assign ps lbp op = do pushed ← push_expression ps (lbp - 1); or_nil pushed (push_value op)

-- The right side of an assignment to a variable, which is initialized then.
unfoldable pub assign_variable : Parsers → ℕ → Bytes → Variable → Parse (Option Operand)
assign_variable ps lbp name v = do
  pushed ← push_expression ps (lbp - 1)
  or_nil pushed do
    push_op_code (OpCode.store_variable_keep v.slot_index)
    modify λ p. record p { block = initialize_variable name p.block }
    pure (some value)

unfoldable pub assignment_led : Parsers → ℕ → Option Operand → Parse (Option Operand)
unfolding is_const
assignment_led ps lbp (some (identifier name)) = do
  found ← gets λ p. resolve_variable p.block name
  elim found [
    | none ↦ refuse (undefined_variable name)
    | some v ↦
        if is_const v.decl_type
        then (if v.initialized
            then refuse (cannot_reassign name)
            else assign_variable ps lbp name v)
        else assign_variable ps lbp name v
  ]
assignment_led ps lbp (some (capture_reference i)) = assign ps lbp (OpCode.store_capture_keep i)
assignment_led ps lbp (some array_reference) = assign ps lbp OpCode.set_element
assignment_led ps lbp (some (member_reference name)) = assign ps lbp (OpCode.set_property name)
assignment_led ps lbp _ = refuse invalid_assignment

unfoldable pub postfix_ops : Token → Stepping
postfix_ops gtok_incr = record {
  variable_op = OpCode.post_increment;
  element_op = OpCode.post_increment_element;
  property_op = OpCode.post_increment_property;
}
postfix_ops _ = record {
  variable_op = OpCode.post_decrement;
  element_op = OpCode.post_decrement_element;
  property_op = OpCode.post_decrement_property;
}

unfoldable pub postfix_incr_decr_led : Token → Option Operand → Parse (Option Operand)
postfix_incr_decr_led token left = step_operand (postfix_ops token) invalid_postfix_operand left

-- The bracket behind an index.
unfoldable pub close_bracket : Parsers → Bool → Parse (Option Operand)
unfolding is_rb
close_bracket ps ok = or_nil ok do
  token ← gets current
  if is_rb token then advance ps.strconv (pure (some array_reference)) else refuse bracket_expected

unfoldable pub element_access_led : Parsers → Option Operand → Parse (Option Operand)
unfolding close_bracket
element_access_led ps left = do
  pushed ← push_eval_expression left
  or_nil pushed (push_expression ps 0 >>= close_bracket ps)

-- The name behind a dot.
unfoldable pub member_name : Parsers → Parse (Option Operand)
unfolding is_identifier
member_name ps = do
  sym ← gets λ p. p.lexer.sym
  if is_identifier sym.token
      then advance ps.strconv (pure (some (member_reference sym.identifier)))
      else refuse property_name_expected

unfoldable pub member_access_led : Parsers → Option Operand → Parse (Option Operand)
unfolding member_name
member_access_led ps left = do pushed ← push_eval_expression left; or_nil pushed (member_name ps)

-- What is called: a method with the object it is called on, or a value. nil is dereferenced.
unfoldable pub push_callee : Option Operand → Parse (Option Bool)
push_callee none = λ p. panicked
push_callee (some (member_reference name)) =
    push_op_code OpCode.dup >> push_op_code (OpCode.get_property name) >> pure (some true)
push_callee (some other) = do
  pushed ← push_eval_expression (some other)
  or_nil pushed (pure (some false))

-- The arguments up to the parenthesis, which stays the current token.
unfoldable pub argument_list : Parsers → Parse (Option (List Bool))
unfolding is_rp
argument_list ps = do
  token ← gets current
  if is_rp token
      then pure (some [])
      else item_list ps is_rp argument_separator_expected ps.rounds []

unfoldable pub call_led : Parsers → Option Operand → Parse (Option Operand)
call_led ps left = do
  callee ← push_callee left
  elim callee [
    | none ↦ pure none
    | some is_method_call ↦ (do
      mask ← argument_list ps
      elim mask [
        | none ↦ pure none
        | some marks ↦ advance ps.strconv (
            push_value (
              if is_method_call
              then OpCode.method_call (item_count marks)
              else OpCode.call (item_count marks)))
      ])
  ]

-- The end of an operator whose jump at a place goes there, if the expression before it was pushed.
unfoldable pub land : ℕ → (ℕ → OpCode) → Bool → Parse (Option Operand)
land jmp_end jump ok =
    or_nil ok do target ← gets λ p. length p.code; patch jmp_end (jump target); pure (some value)

-- The right side of && or ||, with the jump over it, whose target is set at the end. The target is 0
-- until then.
unfoldable pub logical : Parsers → ℕ → (ℕ → OpCode) → Option Operand → Parse (Option Operand)
unfolding land
logical ps lbp jump left = do
  pushed ← push_eval_expression left
  or_nil pushed do jmp_end ← push_op_code (jump 0); push_expression ps lbp >>= land jmp_end jump

unfoldable pub logical_and_led : Parsers → ℕ → Option Operand → Parse (Option Operand)
logical_and_led ps lbp left = logical ps lbp OpCode.jump_if_false_or_pop left

unfoldable pub logical_or_led : Parsers → ℕ → Option Operand → Parse (Option Operand)
logical_or_led ps lbp left = logical ps lbp OpCode.jump_if_true_or_pop left

unfoldable pub is_colon : Token → Bool
is_colon gtok_colon = true
is_colon _ = false

-- tok == GTOK_EOF || tok == GTOK_ERROR
unfoldable pub is_end : Token → Bool
is_end gtok_eof = true
is_end gtok_error = true
is_end _ = false

-- The part of a ternary from its colon on.
unfoldable pub ternary_else : Parsers → ℕ → ℕ → Parse (Option Operand)
unfolding is_colon is_end land
ternary_else ps lbp jmp_end = do
  token ← gets current
  if is_colon token
      then (do
        next ← lex_token ps.strconv
        if is_end next then pure none else push_expression ps lbp >>= land jmp_end OpCode.jump)
      else refuse ternary_colon_expected

-- The part of a ternary behind its first expression, from the place of the jump over that.
unfoldable pub ternary_then : Parsers → ℕ → ℕ → Bool → Parse (Option Operand)
unfolding ternary_else
ternary_then ps lbp jmp_false ok = or_nil ok do
  jmp_end ← push_op_code (OpCode.jump 0)
  target ← gets λ p. length p.code
  patch jmp_false (OpCode.jump_if_false target)
  ternary_else ps lbp jmp_end

unfoldable pub ternary_led : Parsers → ℕ → Option Operand → Parse (Option Operand)
unfolding ternary_then
ternary_led ps lbp left = do
  pushed ← push_eval_expression left
  or_nil pushed do
    jmp_false ← push_op_code (OpCode.jump_if_false 0)
    push_expression ps 0 >>= ternary_then ps lbp jmp_false

-- The operation of a binary operator.
unfoldable pub infix_op : Token → Option OpCode
infix_op gtok_add = some OpCode.addition
infix_op gtok_sub = some OpCode.subtraction
infix_op gtok_mult = some OpCode.multiplication
infix_op gtok_div = some OpCode.division
infix_op gtok_mod = some OpCode.modulus
infix_op gtok_ltlt = some OpCode.left_shift
infix_op gtok_gtgt = some OpCode.right_shift
infix_op gtok_gtgtgt = some OpCode.unsigned_right_shift
infix_op gtok_lt = some OpCode.less_than
infix_op gtok_gt = some OpCode.greater_than
infix_op gtok_lteq = some OpCode.less_than_equal
infix_op gtok_gteq = some OpCode.greater_than_equal
infix_op gtok_eqeq = some OpCode.equal
infix_op gtok_noteq = some OpCode.not_equal
infix_op gtok_eqeqeq = some OpCode.strict_equal
infix_op gtok_noteqeq = some OpCode.strict_not_equal
infix_op gtok_and = some OpCode.bitwise_and
infix_op gtok_or = some OpCode.bitwise_or
infix_op gtok_xor = some OpCode.bitwise_xor
infix_op gtok_in = some OpCode.in_operator
infix_op gtok_instanceof = some OpCode.instanceof
infix_op _ = none

unfoldable pub infix_led : Parsers → ℕ → Token → Option Operand → Parse (Option Operand)
infix_led ps lbp token left = do
  pushed ← push_eval_expression left
  or_nil pushed do right ← push_expression ps lbp; or_nil right (push_case (infix_op token))

unfoldable pub comma_led : Parsers → ℕ → Option Operand → Parse (Option Operand)
comma_led ps lbp left = do
  pushed ← push_eval_expression left
  or_nil pushed do
    push_op_code OpCode.pop_value
    right ← push_expression ps lbp
    or_nil right (pure (some value))
