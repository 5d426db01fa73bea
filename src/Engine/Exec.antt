-- ===== src/Engine/Exec.antt =====
-- The dispatch from opcodes to their functions, and the execution loops of Function.Exec and
-- ScriptFunction.CallWithThis (internal/engine/engine.go).
pub mod Exceptions
pub mod Throwing
pub mod Finally
pub mod Returns
pub mod Fuel
pub mod Kept
use gescript.Base.{
  ℕ, zero, suc, Bool, true, false, ◌||◌, ◌≡◌, Option, none, some, List, [], ◌∷◌, leb, if◌then◌else◌,
  length, get_elem?, get_or, replicate,
}
use gescript.Word.{Word, is_neg, add_word}
use gescript.Types.Value.{DataType, nil, undefined}
use gescript.Engine.Code
use gescript.Engine.Code.{OpCode, Function, ScriptFunction}
use gescript.Engine.Process.{
  M, Process, CallFrame, Outcome, ok, fail, panic, Error, exception, uncaught_exception, Fault,
  ◌>>=◌, modify,
}
use gescript.Engine.Host.{Host}
use gescript.Engine.Ops.Arithmetic.{
  addition_operation, subtraction_operation, multiplication_operation, division_operation,
  modulus_operation, unary_plus_operation, unary_minus_operation,
}
use gescript.Engine.Ops.Bitwise.{
  left_shift_operation, right_shift_operation, unsigned_right_shift_operation,
  bitwise_and_operation, bitwise_or_operation, bitwise_xor_operation, bitwise_not_operation,
  logical_not_operation,
}
use gescript.Engine.Ops.Compare.{
  less_than_operation, greater_than_operation, less_than_equal_operation,
  greater_than_equal_operation, equal_operation, not_equal_operation, strict_equal_operation,
  strict_not_equal_operation,
}
use gescript.Engine.Ops.Jump.{
  jump_operation, jump_if_false_operation, jump_if_false_or_pop_operation, jump_if_true_operation,
  jump_if_true_or_pop_operation, pop_operation, dup_operation,
}
use gescript.Engine.Ops.Variable.{
  load_variable_operation, store_variable_operation, store_variable_keep_operation,
  pre_increment_operation, pre_decrement_operation, post_increment_operation,
  post_decrement_operation,
}
use gescript.Engine.Ops.Element.{
  get_element_operation, set_element_operation, delete_element_operation, in_operation,
  pre_increment_element_operation, post_increment_element_operation,
  pre_decrement_element_operation, post_decrement_element_operation,
}
use gescript.Engine.Ops.Property.{
  get_property_operation, set_property_operation, delete_property_operation,
  pre_increment_property_operation, post_increment_property_operation,
  pre_decrement_property_operation, post_decrement_property_operation, load_global_operation,
  store_global_operation,
}
use gescript.Engine.Ops.Literal.{
  push_literal_value_operation, typeof_operation, instanceof_operation, new_array_operation,
  new_object_operation,
}
use gescript.Engine.Ops.Exception.{
  push_exception_context_operation, pop_exception_context_operation, throw_operation,
  finally_complete_operation, handle_exception,
}
use gescript.Engine.Ops.Call.{
  call_operation, method_call_operation, return_operation, frame_of, bind_function_params,
}
use gescript.Engine.Ops.Closure.{
  push_function_operation, load_capture_operation, store_capture_operation,
  store_capture_keep_operation,
}
use gescript.Engine.Ops.ForLoop.{
  for_in_keys_operation, for_in_has_more_operation, for_in_next_operation, for_in_cleanup_operation,
  for_of_iterator_operation, for_of_has_more_operation, for_of_next_operation,
  for_of_cleanup_operation,
}

-- op.ExecFn(prc, op)
unfoldable pub exec_fn : Host → OpCode → M (Unit {0})
exec_fn host (OpCode.push_literal_value v) = push_literal_value_operation v
exec_fn host (OpCode.push_function v) = push_function_operation v
exec_fn host OpCode.addition = addition_operation host.strconv
exec_fn host OpCode.subtraction = subtraction_operation
exec_fn host OpCode.multiplication = multiplication_operation
exec_fn host OpCode.division = division_operation
exec_fn host OpCode.modulus = modulus_operation
exec_fn host OpCode.left_shift = left_shift_operation
exec_fn host OpCode.right_shift = right_shift_operation
exec_fn host OpCode.unsigned_right_shift = unsigned_right_shift_operation
exec_fn host OpCode.less_than = less_than_operation
exec_fn host OpCode.greater_than = greater_than_operation
exec_fn host OpCode.less_than_equal = less_than_equal_operation
exec_fn host OpCode.greater_than_equal = greater_than_equal_operation
exec_fn host OpCode.equal = equal_operation
exec_fn host OpCode.not_equal = not_equal_operation
exec_fn host OpCode.strict_equal = strict_equal_operation
exec_fn host OpCode.strict_not_equal = strict_not_equal_operation
exec_fn host OpCode.bitwise_and = bitwise_and_operation
exec_fn host OpCode.bitwise_or = bitwise_or_operation
exec_fn host OpCode.bitwise_xor = bitwise_xor_operation
exec_fn host OpCode.unary_plus = unary_plus_operation host.strconv
exec_fn host OpCode.unary_minus = unary_minus_operation host.strconv
exec_fn host OpCode.logical_not = logical_not_operation
exec_fn host OpCode.bitwise_not = bitwise_not_operation
exec_fn host (OpCode.jump t) = jump_operation t
exec_fn host (OpCode.jump_if_false t) = jump_if_false_operation t
exec_fn host (OpCode.jump_if_false_or_pop t) = jump_if_false_or_pop_operation t
exec_fn host (OpCode.jump_if_true t) = jump_if_true_operation t
exec_fn host (OpCode.jump_if_true_or_pop t) = jump_if_true_or_pop_operation t
exec_fn host OpCode.pop_value = pop_operation
exec_fn host OpCode.dup = dup_operation
exec_fn host (OpCode.load_variable s) = load_variable_operation s
exec_fn host (OpCode.store_variable s) = store_variable_operation s
exec_fn host (OpCode.store_variable_keep s) = store_variable_keep_operation s
exec_fn host (OpCode.push_exception_context c) = push_exception_context_operation c
exec_fn host OpCode.pop_exception_context = pop_exception_context_operation
exec_fn host OpCode.throw = throw_operation
exec_fn host OpCode.finally_complete = finally_complete_operation
exec_fn host (OpCode.pre_increment s) = pre_increment_operation s
exec_fn host (OpCode.pre_decrement s) = pre_decrement_operation s
exec_fn host (OpCode.post_increment s) = post_increment_operation s
exec_fn host (OpCode.post_decrement s) = post_decrement_operation s
exec_fn host OpCode.pre_increment_element = pre_increment_element_operation
exec_fn host OpCode.post_increment_element = post_increment_element_operation
exec_fn host OpCode.pre_decrement_element = pre_decrement_element_operation
exec_fn host OpCode.post_decrement_element = post_decrement_element_operation
exec_fn host (OpCode.pre_increment_property n) = pre_increment_property_operation n
exec_fn host (OpCode.post_increment_property n) = post_increment_property_operation n
exec_fn host (OpCode.pre_decrement_property n) = pre_decrement_property_operation n
exec_fn host (OpCode.post_decrement_property n) = post_decrement_property_operation n
exec_fn host OpCode.typeof = typeof_operation
exec_fn host OpCode.instanceof = instanceof_operation
exec_fn host (OpCode.new_array c) = new_array_operation c
exec_fn host (OpCode.new_object ks) = new_object_operation ks
exec_fn host OpCode.get_element = get_element_operation host
exec_fn host OpCode.set_element = set_element_operation
exec_fn host OpCode.delete_element = delete_element_operation host
exec_fn host OpCode.in_operator = in_operation host
exec_fn host (OpCode.get_property n) = get_property_operation host n
exec_fn host (OpCode.set_property n) = set_property_operation n
exec_fn host (OpCode.delete_property n) = delete_property_operation n
exec_fn host (OpCode.load_global n) = load_global_operation n
exec_fn host (OpCode.store_global n) = store_global_operation n
exec_fn host (OpCode.call c) = call_operation host c
exec_fn host (OpCode.method_call c) = method_call_operation host c
exec_fn host (OpCode.return_op b) = return_operation b
exec_fn host (OpCode.load_capture i) = load_capture_operation i
exec_fn host (OpCode.store_capture i) = store_capture_operation i
exec_fn host (OpCode.store_capture_keep i) = store_capture_keep_operation i
exec_fn host OpCode.for_in_keys = for_in_keys_operation host
exec_fn host OpCode.for_in_has_more = for_in_has_more_operation
exec_fn host (OpCode.for_in_next s) = for_in_next_operation s
exec_fn host OpCode.for_in_cleanup = for_in_cleanup_operation
exec_fn host OpCode.for_of_iterator = for_of_iterator_operation
exec_fn host OpCode.for_of_has_more = for_of_has_more_operation
exec_fn host (OpCode.for_of_next s) = for_of_next_operation s
exec_fn host OpCode.for_of_cleanup = for_of_cleanup_operation

-- How a loop ends: pc has left the code, an error, a panic, or the bound on the rounds is reached.
pub data Run : Type 0 where
  finished : Process → Run
  failed : Error → Process → Run
  crashed : Fault → Run
  out_of_fuel : Process → Run

-- prc.pc++
abbrev pub advance : Process → Process
advance p = record p { pc = add_word p.pc 1 }

-- An exception goes to its handler, or ends the run with an error of its own.
unfoldable pub recover : Process → Outcome (Unit {0})
recover p = elim (handle_exception p) [
  | ok handled q ↦ if handled then ok tt (advance q) else fail uncaught_exception q
  | fail e q ↦ fail e q
  | panic x ↦ panic x
]

-- After an operation: the next round, the handler of an exception, or the end.
unfoldable pub after_op : Outcome (Unit {0}) → Outcome (Unit {0})
after_op (ok _ q) = ok tt (advance q)
after_op (fail exception q) = recover q
after_op (fail e q) = fail e q
after_op (panic x) = panic x

-- The code at pc; none past either end.
unfoldable pub current_op : Process → Option OpCode
current_op p =
    if is_neg p.pc || leb (length p.body.code) p.pc then none else get_elem? p.body.code p.pc

-- The next round, unless the operation has ended the run.
unfoldable pub next_round : (Process → Run) → Outcome (Unit {0}) → Run
next_round rest (ok _ q) = rest q
next_round rest (fail e q) = failed e q
next_round rest (panic x) = crashed x

unfoldable pub round : Host → (Process → Run) → Process → Option OpCode → Run
round host rest p none = finished p
round host rest p (some op) = next_round rest (after_op (exec_fn host op p))

-- The loop, for a number of rounds at most.
unfoldable pub run : Host → ℕ → Process → Run
run host zero p = out_of_fuel p
run host (suc k) p = round host (run host k) p (current_op p)

-- The value on top of the stack, or undefined.
unfoldable pub result : Process → DataType
result p = elim p.sp [ zero ↦ undefined | suc n ↦ get_or p.stack n nil ]

-- Where body.Exec(prc) starts. The locals stay as they are if the body has none.
unfoldable pub start : Function → Process → Process
start body p = record p {
  body = body;
  pc = 0;
  stack = replicate 16 nil;
  sp = 0;
  exception_ctx = [];
  exception = none;
  locals = if leb 1 body.var_count then replicate body.var_count undefined else p.locals;
}

-- body.Exec(prc)
unfoldable pub exec : Host → ℕ → Function → Process → Run
exec host fuel body p = run host fuel (start body p)

-- The mark that CallWithThis leaves, and the function that it enters; then its loop.
unfoldable pub enter_native : ScriptFunction → Process → Process
enter_native sf p = record p {
  call_stack = record (frame_of p) { body = none; pc = 0 } ∷ p.call_stack;
  body = sf.body;
  pc = 0;
  closure = sf.closure;
  cells = [];
  locals = replicate sf.body.var_count undefined;
}

-- sf.CallWithThis(prc, thisVal, args)
unfoldable pub call_with_this : Host → ℕ → ScriptFunction → DataType → List DataType → Process → Run
call_with_this host fuel sf this_val args p =
    elim (bind_function_params sf this_val args (enter_native sf p)) [
      | ok _ q ↦ run host fuel q
      | fail e q ↦ failed e q
      | panic x ↦ crashed x
    ]
