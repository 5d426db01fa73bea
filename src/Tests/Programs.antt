-- ===== src/Tests/Programs.antt =====
-- Whole programs, as the parser compiles them.
use gescript.Base.{ℕ, ◌≡◌, refl, List, [], ◌∷◌, codes, true, false, Option, none, some}
use gescript.Word.{minus_one, add_word, sub_word, lt_word}
use gescript.Types.Value.{DataType, integer, script_function}
use gescript.Types.Convert.{is_truthy}
use gescript.Engine.Code.{OpCode, plain, ScriptFunction, ExceptionContext}
use gescript.Engine.Heap.{Heap}
use gescript.Engine.Process.{new_process, push, pop, peek, throw_value}
use gescript.Engine.Ops.Shape.{binary}
use gescript.Engine.Ops.Arithmetic.{addition_operation, add_values}
use gescript.Engine.Ops.Compare.{less_than_operation, less_than}
use gescript.Engine.Ops.Jump.{jump_operation, jump_to, jump_if_false_operation, pop_operation}
use gescript.Engine.Ops.Variable.{
  load_variable_operation, load_slot, store_variable_keep_operation, store_variable_operation,
  store_variable, store_slot, post_increment_operation, increment_value,
}
use gescript.Engine.Ops.Literal.{push_literal_value_operation, extract_values, pop_values}
use gescript.Engine.Ops.Exception.{
  push_exception_context_operation, throw_operation, handle_exception, unwind, enter_catch,
  bind_exception, write_local, resume_at,
}
use gescript.Engine.Ops.Call.{
  call_operation, call_function_with_this, call_function, found, setup_script_call, enter_function,
  bind_function_params, bind_arguments, store_params, store_prefix, return_operation, leave_with,
  leave_by, leave_to,
}
use gescript.Engine.Exec.{
  Run, finished, exec, run, start, round, next_round, after_op, recover, current_op, exec_fn,
  result,
}
use gescript.Tests.Sample.{plain_host, no_heap, body_of, fresh}

-- The value of a run that has ended by itself.
value_of : Run → Option DataType
unfolding result
value_of (finished p) = some (result p)
value_of _ = none

run_code : List OpCode → ℕ → Heap → Option DataType
unfolding value_of exec run start round next_round after_op recover current_op exec_fn
run_code code n h = let body = body_of code n in value_of (exec plain_host 100 body (fresh body h))

-- let s = 0; let i = 0; while (i < 4) { s = s + i; i++ } s
loop_sum :
    run_code
      (OpCode.push_literal_value (integer 0)
        ∷ OpCode.store_variable_keep 0
        ∷ OpCode.pop_value
        ∷ OpCode.push_literal_value (integer 0)
        ∷ OpCode.store_variable_keep 1
        ∷ OpCode.pop_value
        ∷ OpCode.load_variable 1
        ∷ OpCode.push_literal_value (integer 4)
        ∷ OpCode.less_than
        ∷ OpCode.jump_if_false 17
        ∷ OpCode.load_variable 0
        ∷ OpCode.load_variable 1
        ∷ OpCode.addition
        ∷ OpCode.store_variable 0
        ∷ OpCode.post_increment 1
        ∷ OpCode.pop_value
        ∷ OpCode.jump 6
        ∷ OpCode.load_variable 0
        ∷ [])
      2
      no_heap
    ≡ some (integer 6)
unfolding run_code new_process push_literal_value_operation push pop peek
    store_variable_keep_operation store_variable store_slot pop_operation load_variable_operation
    load_slot less_than_operation binary less_than lt_word jump_if_false_operation jump_to is_truthy
    addition_operation add_values add_word post_increment_operation increment_value jump_operation
    store_variable_operation sub_word
loop_sum = refl

abbrev catching : ExceptionContext
catching = record {
  catch_target = 5;
  finally_target = minus_one;
  end_target = 7;
  stack_depth = 0;
  catch_var_slot = 0;
}

-- try { throw 7 } catch (e) { e }
try_catch :
    run_code
      (OpCode.push_exception_context catching
        ∷ OpCode.push_literal_value (integer 7)
        ∷ OpCode.throw
        ∷ OpCode.pop_exception_context
        ∷ OpCode.jump 7
        ∷ OpCode.load_variable 0
        ∷ OpCode.jump 7
        ∷ [])
      1
      no_heap
    ≡ some (integer 7)
unfolding run_code new_process push_exception_context_operation push_literal_value_operation push
    pop throw_operation throw_value handle_exception unwind enter_catch bind_exception write_local
    resume_at load_variable_operation load_slot jump_operation jump_to add_word sub_word
try_catch = refl

-- function f(a, b) { return a + b }
abbrev pub adder : ScriptFunction
adder = record {
  name = codes "f";
  param_names = codes "a" ∷ codes "b" ∷ [];
  has_rest_param = false;
  body =
      body_of
        (OpCode.load_variable 0
          ∷ OpCode.load_variable 1
          ∷ OpCode.addition
          ∷ OpCode.return_op true
          ∷ [])
        2;
  var_count = 2;
  arguments_slot = minus_one;
  this_slot = minus_one;
  is_arrow_func = false;
  captures = [];
  closure = [];
}

-- f(2, 3) + 10
calls :
    run_code
      (OpCode.push_literal_value (script_function 0)
        ∷ OpCode.push_literal_value (integer 2)
        ∷ OpCode.push_literal_value (integer 3)
        ∷ OpCode.call (plain 2)
        ∷ OpCode.push_literal_value (integer 10)
        ∷ OpCode.addition
        ∷ [])
      0
      (record no_heap { functions = adder ∷ [] })
    ≡ some (integer 15)
unfolding run_code new_process push_literal_value_operation push pop call_operation extract_values
    pop_values call_function_with_this call_function found setup_script_call enter_function
    bind_function_params bind_arguments store_params store_prefix load_variable_operation load_slot
    addition_operation add_values add_word return_operation leave_with leave_by leave_to
calls = refl
