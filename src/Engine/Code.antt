-- ===== src/Engine/Code.antt =====
-- The code of a function (internal/engine/engine.go, internal/engine/operations.go). An opcode of
-- the source is a Go function with its OpData; here it is a constructor with that data.
use gescript.Base.{ℕ, Bool, List, Bytes, Option}
use gescript.Word.{Word}
use gescript.Types.Value.{DataType, Ref}

-- A context in the code. In a target or a slot -1 means that there is none.
pub record ExceptionContext : Type 0 where
  pub catch_target : Word
  pub finally_target : Word
  pub end_target : Word
  pub stack_depth : ℕ
  pub catch_var_slot : Word

-- An element count, or CallSpreadInfo and ArraySpreadInfo.
pub data Count : Type 0 where
  plain : ℕ → Count
  spread : ℕ → List Bool → Count

pub data OpCode : Type 0 where
  push_literal_value push_function : DataType → OpCode
  addition subtraction multiplication division modulus : OpCode
  left_shift right_shift unsigned_right_shift : OpCode
  less_than greater_than less_than_equal greater_than_equal : OpCode
  equal not_equal strict_equal strict_not_equal : OpCode
  bitwise_and bitwise_or bitwise_xor : OpCode
  unary_plus unary_minus logical_not bitwise_not : OpCode
  jump jump_if_false jump_if_false_or_pop jump_if_true jump_if_true_or_pop : Word → OpCode
  pop_value dup : OpCode
  load_variable store_variable store_variable_keep : Word → OpCode
  push_exception_context : ExceptionContext → OpCode
  pop_exception_context throw finally_complete : OpCode
  pre_increment pre_decrement post_increment post_decrement : Word → OpCode
  pre_increment_element post_increment_element : OpCode
  pre_decrement_element post_decrement_element : OpCode
  pre_increment_property post_increment_property : Bytes → OpCode
  pre_decrement_property post_decrement_property : Bytes → OpCode
  typeof instanceof : OpCode
  new_array : Count → OpCode
  new_object : List Bytes → OpCode
  get_element set_element delete_element in_operator : OpCode
  get_property set_property delete_property : Bytes → OpCode
  load_global store_global : Bytes → OpCode
  call method_call : Count → OpCode
  return_op : Bool → OpCode
  load_capture store_capture store_capture_keep : Word → OpCode
  for_in_keys for_in_has_more for_in_cleanup : OpCode
  for_of_iterator for_of_has_more for_of_cleanup : OpCode
  for_in_next for_of_next : Word → OpCode

pub record Function : Type 0 where
  pub name : Bytes
  pub code : List OpCode
  pub var_count : ℕ

-- A captured variable: a local slot or an index into the closure, by the flag.
pub record CaptureInfo : Type 0 where
  pub name : Bytes
  pub slot_index : Word
  pub is_capture : Bool

pub record ScriptFunction : Type 0 where
  pub name : Bytes
  pub param_names : List Bytes
  pub has_rest_param : Bool
  pub body : Function
  pub var_count : ℕ
  pub arguments_slot : Word
  pub this_slot : Word
  pub is_arrow_func : Bool
  pub captures : List CaptureInfo
  pub closure : List (Option Ref)
