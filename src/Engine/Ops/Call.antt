-- ===== src/Engine/Ops/Call.antt =====
-- Calls, the binding of arguments to parameters, and returns.
pub mod Binding
pub mod Entry
use gescript.Base.{
  ℕ, zero, suc, ◌+◌, ◌-◌, Bool, true, false, not, ◌&&◌, ◌≡◌, Option, none, some, List, [], ◌∷◌,
  ◌++◌, ltb, ◌==◌, if◌then◌else◌, length, drop, get_elem?, replicate,
}
use mathlib.Core.Option
use gescript.Word.{Word, minus_one, is_neg}
use gescript.Types.Value.{
  DataType, nil, undefined, array, script_function, native_function, native_method,
  native_constructor, bound_function, Ref,
}
use gescript.Engine.Code.{Function, ScriptFunction, Count}
use gescript.Engine.Heap.{Heap, BoundFunction, alloc_array}
use gescript.Engine.Process.{
  M, Process, CallFrame, Outcome, ok, fail, panic, not_a_function, index_out_of_range,
  nil_dereference, stack_overflow, pure, gets, modify, return_err, throw_fault, ◌>>=◌, ◌>>◌, push,
  pop,
}
use gescript.Engine.Host.{Host}
use gescript.Engine.Ops.Literal.{extract_values}
use gescript.Engine.Ops.Exception.{write_local}
use gescript.Engine.Ops.Element.{or_else}

-- for idx < count && idx < len(args) { locals[idx] = args[idx] }; `none` is the panic of a slot
-- that is not there.
unfoldable pub store_prefix : ℕ → List DataType → List DataType → Option (List DataType)
store_prefix zero locals args = some locals
store_prefix (suc n) locals [] = some locals
store_prefix (suc n) [] (a ∷ args) = none
store_prefix (suc n) (l ∷ locals) (a ∷ args) =
    Option.map (λ ls. a ∷ ls) (store_prefix n locals args)

unfoldable pub store_params : ℕ → List DataType → M (Unit {0})
store_params n args p = elim (store_prefix n p.locals args) [
  | none ↦ panic index_out_of_range
  | some locals ↦ ok tt (record p { locals = locals })
]

-- A new array in a local slot.
unfoldable pub array_in_slot : Word → List DataType → M (Unit {0})
array_in_slot slot els = do
  r ← gets λ p. length p.heap.arrays
  modify λ p. record p { heap = alloc_array p.heap els }
  write_local slot (array r)

unfoldable pub bind_arguments : ScriptFunction → List DataType → M (Unit {0})
bind_arguments sf args =
    let count = length sf.param_names in
    if sf.has_rest_param && ltb 0 count
    then (do store_params (count - 1) args; array_in_slot (count - 1) (drop (count - 1) args))
    else store_params count args

-- bindFunctionParams, on the locals of the process.
unfoldable pub bind_function_params : ScriptFunction → DataType → List DataType → M (Unit {0})
bind_function_params sf this_val args = do
  bind_arguments sf args
  if is_neg sf.arguments_slot then pure tt else array_in_slot sf.arguments_slot args
  if is_neg sf.this_slot then pure tt else write_local sf.this_slot this_val

abbrev pub frame_of : Process → CallFrame
frame_of p = record {
  body = some p.body;
  pc = p.pc;
  sp = p.sp;
  locals = p.locals;
  cells = p.cells;
  closure = p.closure;
}

-- The part of setupScriptCall before the arguments are bound.
unfoldable pub enter_function : ScriptFunction → Process → Process
enter_function fn p = record p {
  call_stack = frame_of p ∷ p.call_stack;
  body = fn.body;
  pc = minus_one;
  closure = fn.closure;
  cells = [];
  locals = replicate fn.body.var_count undefined;
}

unfoldable pub setup_script_call : ScriptFunction → DataType → List DataType → M (Unit {0})
setup_script_call fn this_val args = do
  modify (enter_function fn)
  bind_function_params fn this_val args

-- A Go nil result counts as undefined.
unfoldable pub push_call_result : M DataType → M (Unit {0})
push_call_result m = do res ← m; push (or_else res undefined)

unfoldable pub found {ℓ} : {A : Type ℓ} → Option A → (A → M (Unit {0})) → M (Unit {0})
found none k = throw_fault nil_dereference
found (some a) k = k a

-- callFunctionWithThis; the number bounds the bound functions that are bound again.
unfoldable pub call_function : Host → ℕ → DataType → DataType → List DataType → M (Unit {0})
call_function host zero fn this_val args p = panic stack_overflow
call_function host (suc k) (native_function r) this_val args p =
    found (get_elem? p.heap.natives r) (λ f. push_call_result (host.call_native f.fn args)) p
call_function host (suc k) (native_method r) this_val args p =
    found (get_elem? p.heap.methods r)
      (λ m. push_call_result (host.call_native m.method.fn (m.target ∷ args))) p
call_function host (suc k) (native_constructor r) this_val args p =
    found (get_elem? p.heap.constructors r)
      (λ c. push_call_result (host.call_native c.constructor args)) p
call_function host (suc k) (bound_function r) this_val args p =
    found (get_elem? p.heap.bounds r)
      (λ b. call_function host k b.target b.bound_this (b.bound_args ++ args)) p
call_function host (suc k) (script_function r) this_val args p =
    found (get_elem? p.heap.functions r) (λ fn. setup_script_call fn this_val args) p
call_function host (suc k) fn this_val args p = fail (not_a_function fn) p

unfoldable pub call_function_with_this : Host → DataType → DataType → List DataType → M (Unit {0})
call_function_with_this host fn this_val args p =
    call_function host (length p.heap.bounds + 1) fn this_val args p

unfoldable pub call_operation : Host → Count → M (Unit {0})
call_operation host count = do
  args ← extract_values count
  fn ← pop
  call_function_with_this host fn undefined args

unfoldable pub method_call_operation : Host → Count → M (Unit {0})
method_call_operation host count = do
  args ← extract_values count
  fn ← pop
  this_val ← pop
  call_function_with_this host fn this_val args

-- Back to the frame. The frame of a native caller has no body, and the body stays.
unfoldable pub leave_to : CallFrame → List CallFrame → Process → Process
leave_to frame outer p =
    let back = record p {
      call_stack = outer;
      locals = frame.locals;
      cells = frame.cells;
      closure = frame.closure;
      sp = frame.sp;
    } in
    elim frame.body [
      | none ↦ record back { pc = minus_one }
      | some body ↦ record back { body = body; pc = frame.pc }
    ]

-- With no frame the script ends: its value is alone on the stack and pc is past the code.
unfoldable pub leave_by : List CallFrame → DataType → M (Unit {0})
leave_by [] ret p =
    (do push ret; modify λ q. record q { pc = length q.body.code }) (record p { sp = 0 })
leave_by (frame ∷ outer) ret p = push ret (leave_to frame outer p)

unfoldable pub leave_with : DataType → M (Unit {0})
leave_with ret p = leave_by p.call_stack ret p

unfoldable pub return_operation : Bool → M (Unit {0})
return_operation true = do ret ← pop; leave_with ret
return_operation false = leave_with undefined
