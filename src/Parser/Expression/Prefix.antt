-- ===== src/Parser/Expression/Prefix.antt =====
-- What begins an expression: the nud functions of internal/parser/expression.go.
use gescript.Base.{
  ℕ, Bool, true, false, Option, none, some, List, [], Bytes, codes, str_eq, if◌then◌else◌,
}
use gescript.Types.Value.{Ref, undefined, null, boolean, script_function}
use gescript.Engine.Code.{OpCode}
use gescript.Parser.Token.{
  Token, Sym, gtok_null, gtok_true, gtok_false, gtok_add, gtok_sub, gtok_not, gtok_tilde, gtok_incr,
}
use gescript.Parser.Scope.{Variable, VarDeclType, decl_const, resolve_variable}
use gescript.Parser.State.{
  Message, undefined_variable, cannot_modify, not_initialized, invalid_operand, Parse, parsed,
  ◌>>=◌, ◌>>◌, pure, gets, refuse, push_op_code, Operand, literal, value, identifier,
  global_reference, array_reference, member_reference, push_eval_expression,
}
use gescript.Parser.Expression.Shared.{
  Parsers, or_nil, push_expression, push_value, captured_or, is_uninitialized,
}

-- The literal of the lexer, or that of a keyword.
unfoldable pub literal_nud : Sym → Operand
literal_nud sym = elim sym.token [
  | gtok_null ↦ literal null
  | gtok_true ↦ literal (boolean true)
  | gtok_false ↦ literal (boolean false)
  | _ ↦ literal sym.literal
]

-- A parsed function is pushed.
unfoldable pub push_function : Option Ref → Parse (Option Operand)
push_function none = pure none
push_function (some f) = push_value (OpCode.push_function (script_function f))

unfoldable pub function_expr_nud : Parsers → Parse (Option Operand)
function_expr_nud ps = ps.parse_function_decl false false [] >>= push_function

-- prs.parseArrowFunctionBody(paramNames)
unfoldable pub parse_arrow_function_body : Parsers → List Bytes → Parse (Option Operand)
parse_arrow_function_body ps param_names =
    ps.parse_function_decl false true param_names >>= push_function

unfoldable pub this_nud : Parse (Option Operand)
this_nud p = elim (resolve_variable p.block (codes "this")) [
  | none ↦ captured_or (codes "this") (literal undefined) p
  | some v ↦ parsed (some (identifier (codes "this"))) p
]

-- A declared variable, which must be initialized; or a name that is not declared here.
unfoldable pub variable_or :
    Bytes → Option Variable → Parse (Option Operand) → Parse (Option Operand)
unfolding is_uninitialized
variable_or name none other = other
variable_or name (some v) other =
    if is_uninitialized v then refuse (not_initialized name) else pure (some (identifier name))

unfoldable pub identifier_nud : Bytes → Parse (Option Operand)
identifier_nud name p =
    if str_eq name (codes "undefined")
    then parsed (some (literal undefined)) p
    else variable_or name (resolve_variable p.block name) (captured_or name (global_reference name))
        p

-- The operation of a unary operator.
unfoldable pub unary_op : Token → Option OpCode
unary_op gtok_add = some OpCode.unary_plus
unary_op gtok_sub = some OpCode.unary_minus
unary_op gtok_not = some OpCode.logical_not
unary_op gtok_tilde = some OpCode.bitwise_not
unary_op _ = none

-- The operation of a switch that has a case for it, and a result that is on the stack.
unfoldable pub push_case : Option OpCode → Parse (Option Operand)
push_case none = pure (some value)
push_case (some op) = push_value op

unfoldable pub unary_nud : Parsers → ℕ → Token → Parse (Option Operand)
unary_nud ps lbp token = do
  pushed ← push_expression ps lbp
  or_nil pushed (push_case (unary_op token))

unfoldable pub typeof_nud : Parsers → ℕ → Parse (Option Operand)
typeof_nud ps lbp = do pushed ← push_expression ps lbp; or_nil pushed (push_value OpCode.typeof)

-- The operation of delete on an operand; what is no reference is evaluated and discarded.
unfoldable pub delete_operand : Option Operand → Parse (Option Operand)
delete_operand none = pure none
delete_operand (some (member_reference name)) = push_value (OpCode.delete_property name)
delete_operand (some array_reference) = push_value OpCode.delete_element
delete_operand (some other) =
    push_eval_expression (some other)
    >> push_op_code OpCode.pop_value
    >> push_value (OpCode.push_literal_value (boolean true))

unfoldable pub delete_nud : Parsers → ℕ → Parse (Option Operand)
delete_nud ps lbp = ps.parse_expression lbp >>= delete_operand

unfoldable pub is_const : VarDeclType → Bool
is_const decl_const = true
is_const _ = false

-- The operation of ++ or -- for each of its targets.
pub record Stepping : Type 0 where
  pub variable_op : ℕ → OpCode
  pub element_op : OpCode
  pub property_op : Bytes → OpCode

-- The target of ++ or --.
unfoldable pub step_operand : Stepping → Message → Option Operand → Parse (Option Operand)
unfolding is_const
step_operand ops msg (some (identifier name)) = do
  found ← gets λ p. resolve_variable p.block name
  elim found [
    | none ↦ refuse (undefined_variable name)
    | some v ↦
        if is_const v.decl_type
        then refuse (cannot_modify name)
        else push_value (ops.variable_op v.slot_index)
  ]
step_operand ops msg (some array_reference) = push_value ops.element_op
step_operand ops msg (some (member_reference name)) = push_value (ops.property_op name)
step_operand ops msg _ = refuse msg

unfoldable pub prefix_ops : Token → Stepping
prefix_ops gtok_incr = record {
  variable_op = OpCode.pre_increment;
  element_op = OpCode.pre_increment_element;
  property_op = OpCode.pre_increment_property;
}
prefix_ops _ = record {
  variable_op = OpCode.pre_decrement;
  element_op = OpCode.pre_decrement_element;
  property_op = OpCode.pre_decrement_property;
}

unfoldable pub prefix_incr_decr_nud : Parsers → Token → Parse (Option Operand)
prefix_incr_decr_nud ps token = do
  operand ← ps.parse_expression 84
  elim operand [
    | none ↦ pure none
    | some target ↦ step_operand (prefix_ops token) invalid_operand (some target)
  ]
