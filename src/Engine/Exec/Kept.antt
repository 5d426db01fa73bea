-- ===== src/Engine/Exec/Kept.antt =====
-- The stack pointers of a process through each operation and through whole runs of Exec and
-- CallWithThis (internal/engine/engine.go).
pub mod Locals
pub mod Elements
pub mod Calls
pub mod Unwinding
use gescript.Base.{
  arith, ℕ, zero, suc, Bool, true, false, Option, none, some, ◌≡◌, refl, List, [], ◌∷◌, length,
  if◌then◌else◌,
}
use gescript.Engine.Code
use gescript.Engine.Code.{OpCode, Function, ScriptFunction}
use gescript.Types.Value.{DataType}
use gescript.Engine.Host.{Host}
use gescript.Engine.Ops.Exception.{handle_exception}
use gescript.Engine.Ops.Call.{bind_function_params}
use gescript.Engine.Process.{
  Process, Outcome, M, ok, fail, panic, exception, uncaught_exception, ◌>>=◌, ◌>>◌,
}
use gescript.Engine.Process.Fits.{Fits, FitsAfter, FitsAfter-if, Keeps, keeps_rules}
use gescript.Engine.Exec.{
  exec_fn, Run, finished, failed, crashed, out_of_fuel, advance, recover, after_op, next_round,
  round, run, current_op, exec, start, enter_native, call_with_this,
}
use gescript.Engine.Exec.Kept.Locals.{
  Keeps-addition, Keeps-binary, Keeps-unary, Keeps-text_of, Keeps-extract_values,
  Keeps-push_new_array, Keeps-pop_properties, Keeps-jump_to, Keeps-load_variable,
  Keeps-store_variable, Keeps-update_slot, Keeps-push_function, Keeps-load_capture,
  Keeps-store_capture,
}
use gescript.Engine.Exec.Kept.Elements.{
  Keeps-in, Keeps-load_global, Keeps-element_of, Keeps-store_element, Keeps-delete_from,
  Keeps-update_element, Keeps-property_of, Keeps-store_property, Keeps-discard_property,
  Keeps-update_property, Keeps-bind_element, Keeps-for_in_advance,
}
use gescript.Engine.Exec.Kept.Calls.{
  HostKeeps, Keeps-call, Keeps-return, Keeps-bind_function_params,
}
use gescript.Engine.Exec.Kept.Unwinding.{
  Keeps-push_exception_context, Keeps-pop_exception_context, Keeps-throw, Keeps-finally_complete,
  handle_exception-Fits,
}
use gescript.Engine.Ops.Arithmetic.{
  subtraction_operation, multiplication_operation, division_operation, modulus_operation,
  unary_plus_operation, unary_minus_operation,
}
use gescript.Engine.Ops.Bitwise.{
  left_shift_operation, right_shift_operation, unsigned_right_shift_operation,
  bitwise_and_operation, bitwise_or_operation, bitwise_xor_operation, bitwise_not_operation,
  logical_not_operation,
}
use gescript.Engine.Ops.Compare.{
  less_than_operation, greater_than_operation, less_than_equal_operation,
  greater_than_equal_operation, equal_operation, not_equal_operation, strict_equal_operation,
  strict_not_equal_operation,
}
use gescript.Engine.Ops.Jump.{
  jump_operation, jump_if_false_operation, jump_if_false_or_pop_operation, jump_if_true_operation,
  jump_if_true_or_pop_operation, pop_operation, dup_operation,
}
use gescript.Engine.Ops.Variable.{
  store_variable_operation, store_variable_keep_operation, pre_increment_operation,
  pre_decrement_operation, post_increment_operation, post_decrement_operation,
}
use gescript.Engine.Ops.Element.{
  get_element_operation, set_element_operation, delete_element_operation,
  pre_increment_element_operation, post_increment_element_operation,
  pre_decrement_element_operation, post_decrement_element_operation,
}
use gescript.Engine.Ops.Property.{
  get_property_operation, set_property_operation, delete_property_operation,
  pre_increment_property_operation, post_increment_property_operation,
  pre_decrement_property_operation, post_decrement_property_operation, store_global_operation,
}
use gescript.Engine.Ops.Literal.{
  push_literal_value_operation, typeof_operation, instanceof_operation, new_array_operation,
  new_object_operation,
}
use gescript.Engine.Ops.Call.{call_operation, method_call_operation}
use gescript.Engine.Ops.Closure.{store_capture_operation, store_capture_keep_operation}
use gescript.Engine.Ops.ForLoop.{
  for_in_keys_operation, for_in_has_more_operation, for_in_next_operation, for_in_cleanup_operation,
  for_of_iterator_operation, for_of_has_more_operation, for_of_next_operation,
  for_of_cleanup_operation,
}

ruleset op_rules = (
  keeps_rules, Keeps-binary, Keeps-unary, Keeps-text_of, Keeps-extract_values, Keeps-push_new_array,
  Keeps-pop_properties, Keeps-jump_to, Keeps-load_variable, Keeps-store_variable, Keeps-update_slot,
  Keeps-push_function, Keeps-load_capture, Keeps-store_capture, Keeps-element_of,
  Keeps-store_element, Keeps-delete_from, Keeps-update_element, Keeps-property_of,
  Keeps-store_property, Keeps-discard_property, Keeps-update_property, Keeps-bind_element,
  Keeps-for_in_advance, Keeps-call, Keeps-return, Keeps-push_exception_context,
  Keeps-pop_exception_context, Keeps-throw, Keeps-finally_complete, Keeps-addition, Keeps-in,
  Keeps-load_global,
)

-- On a host whose native functions keep the stack pointers within the stack, every operation does,
-- whether it returns or fails.
pub exec_fn-Keeps : (host : Host) → HostKeeps host → (op : OpCode) → Keeps (exec_fn host op)
unfolding exec_fn push_literal_value_operation subtraction_operation multiplication_operation
    division_operation modulus_operation left_shift_operation right_shift_operation
    unsigned_right_shift_operation less_than_operation greater_than_operation
    less_than_equal_operation greater_than_equal_operation equal_operation not_equal_operation
    strict_equal_operation strict_not_equal_operation bitwise_and_operation bitwise_or_operation
    bitwise_xor_operation unary_plus_operation unary_minus_operation logical_not_operation
    bitwise_not_operation jump_operation jump_if_false_operation jump_if_false_or_pop_operation
    jump_if_true_operation jump_if_true_or_pop_operation pop_operation dup_operation
    store_variable_operation store_variable_keep_operation pre_increment_operation
    pre_decrement_operation post_increment_operation post_decrement_operation
    pre_increment_element_operation post_increment_element_operation pre_decrement_element_operation
    post_decrement_element_operation pre_increment_property_operation
    post_increment_property_operation pre_decrement_property_operation
    post_decrement_property_operation typeof_operation instanceof_operation new_array_operation
    new_object_operation get_element_operation set_element_operation delete_element_operation
    get_property_operation set_property_operation delete_property_operation store_global_operation
    call_operation method_call_operation store_capture_operation store_capture_keep_operation
    for_in_keys_operation for_in_has_more_operation for_in_next_operation for_in_cleanup_operation
    for_of_iterator_operation for_of_has_more_operation for_of_next_operation
    for_of_cleanup_operation
exec_fn-Keeps host native (OpCode.push_literal_value v) = search op_rules depth 12
exec_fn-Keeps host native _ = search op_rules depth 12

FitsAfter-recovered :
    (o : Outcome Bool)
    → FitsAfter o
    → FitsAfter {A = Unit {0}} (elim o [
      | ok handled q ↦ if handled then ok tt (advance q) else fail uncaught_exception q
      | fail e q ↦ fail e q
      | panic x ↦ panic x
    ])
FitsAfter-recovered (ok true q) h = h
FitsAfter-recovered (ok false q) h = h
FitsAfter-recovered (fail e q) h = h
FitsAfter-recovered (panic x) h = tt

recover-Fits : (p : Process) → Fits p → FitsAfter (recover p)
unfolding recover
recover-Fits p h = FitsAfter-recovered (handle_exception p) (handle_exception-Fits p h)

after_op-Fits : (o : Outcome (Unit {0})) → FitsAfter o → FitsAfter (after_op o)
unfolding after_op
after_op-Fits (ok a q) h = h
after_op-Fits (fail exception q) h = recover-Fits q h
after_op-Fits (fail _ q) h = h
after_op-Fits (panic x) h = tt

-- The process that a run ends in fits. A panic leaves none.
abbrev pub RunFits : Run → Type 0
RunFits (finished p) = Fits p
RunFits (failed e p) = Fits p
RunFits (crashed x) = Unit
RunFits (out_of_fuel p) = Fits p

next_round-Fits :
    (rest : Process → Run) (o : Outcome (Unit {0}))
    → ((q : Process) → Fits q → RunFits (rest q))
    → FitsAfter o
    → RunFits (next_round rest o)
unfolding next_round
next_round-Fits rest (ok a q) hr h = hr q h
next_round-Fits rest (fail e q) hr h = h
next_round-Fits rest (panic x) hr h = tt

module _ (host : Host) (native : HostKeeps host) where
  round-Fits :
      (rest : Process → Run) (p : Process) (o : Option OpCode)
      → ((q : Process) → Fits q → RunFits (rest q))
      → Fits p
      → RunFits (round host rest p o)
  unfolding round
  round-Fits rest p none hr h = h
  round-Fits rest p (some op) hr h =
      next_round-Fits rest (after_op (exec_fn host op p)) hr
        (after_op-Fits (exec_fn host op p) ((exec_fn-Keeps host native op).at p h))

  -- On a host whose native functions keep the stack pointers within the stack, a run of any
  -- code, from a process whose stack pointers are within its stack, leaves them there, however
  -- it ends and after any number of rounds.
  pub run-Fits : (k : ℕ) (p : Process) → Fits p → RunFits (run host k p)
  unfolding run
  run-Fits zero p h = h
  run-Fits (suc k) p h = round-Fits (run host k) p (current_op p) (run-Fits k) h

  -- On a host whose native functions keep the stack pointers within the stack, a script that is
  -- run outside any call ends with its stack pointers within the stack, whatever process it is
  -- given.
  pub exec-Fits :
      (k : ℕ) (body : Function) (p : Process) → p.call_stack ≡ [] → RunFits (exec host k body p)
  unfolding exec start
  exec-Fits k body p e = run-Fits k (start body p) (record {
    has_slots = omega arith;
    in_range = omega arith;
    frames_fit = rw e tt;
    contexts_fit = tt;
  })

  -- On a host whose native functions keep the stack pointers within the stack, a callback from
  -- one of them, on a process whose stack pointers are within its stack, keeps the stack
  -- pointers within the stack.
  pub call_with_this-Fits :
      (k : ℕ) (sf : ScriptFunction) (this_val : DataType) (args : List DataType) (p : Process)
      → Fits p
      → RunFits (call_with_this host k sf this_val args p)
  unfolding call_with_this enter_native
  call_with_this-Fits k sf this_val args p h =
      bound_run (bind_function_params sf this_val args (enter_native sf p)) (
        (Keeps-bind_function_params sf this_val args).at (enter_native sf p) (record {
          has_slots = h.has_slots;
          in_range = h.in_range;
          frames_fit = (h.in_range, h.frames_fit);
          contexts_fit = h.contexts_fit;
        }))
    where
      bound_run :
          (o : Outcome (Unit {0}))
          → FitsAfter o
          → RunFits (elim o [ ok a q ↦ run host k q | fail e q ↦ failed e q | panic x ↦ crashed x ])
      bound_run (ok a q) hq = run-Fits k q hq
      bound_run (fail e q) hq = hq
      bound_run (panic x) hq = tt
