-- ===== src/Engine/Exec/Kept/Calls.antt =====
-- The stack pointers of a process through calls and returns.
use gescript.Base.{
  ℕ, zero, suc, ◌+◌, List, [], ◌∷◌, ◌++◌, Bool, true, false, Option, none, some, get_elem?, length,
  arith, Option-cases, inl, inr,
}
use gescript.Word.{Word}
use gescript.Types.Value.{
  DataType, undefined, native_function, native_method, native_constructor, bound_function,
  script_function,
}
use gescript.Engine.Code.{ScriptFunction}
use gescript.Engine.Host.{Host}
use gescript.Engine.Process.{
  Process, CallFrame, M, ok, panic, push, ◌>>◌, index_out_of_range, modify,
}
use gescript.Engine.Process.Fits.{
  Fits, FitsIn, FitsIn-cut, FramesFit, FitsAfter, FitsAfter-option, Keeps, Keeps-push, keeps_rules,
}
use gescript.Engine.Ops.Call.{
  store_prefix, store_params, array_in_slot, bind_arguments, bind_function_params, enter_function,
  setup_script_call, push_call_result, found, call_function, call_function_with_this, leave_to,
  leave_by, leave_with, return_operation,
}
use gescript.Engine.Exec.Kept.Locals.{Keeps-write_local}

Keeps-store_params : (n : ℕ) (args : List DataType) → Keeps (store_params n args)
unfolding store_params
Keeps-store_params n args = record {
  at = λ p h.
      FitsAfter-option (store_prefix n p.locals args) (panic index_out_of_range)
        (λ locals. ok tt (record p { locals = locals })) tt λ locals. h;
}

Keeps-array_in_slot : (slot : Word) (els : List DataType) → Keeps (array_in_slot slot els)
unfolding array_in_slot
Keeps-array_in_slot slot els = search (keeps_rules, Keeps-write_local)

Keeps-bind_arguments : (fn : ScriptFunction) (args : List DataType) → Keeps (bind_arguments fn args)
unfolding bind_arguments
Keeps-bind_arguments fn args = search (keeps_rules, Keeps-store_params, Keeps-array_in_slot)

pub Keeps-bind_function_params :
    (fn : ScriptFunction) (this_val : DataType) (args : List DataType)
    → Keeps (bind_function_params fn this_val args)
unfolding bind_function_params
Keeps-bind_function_params fn this_val args =
    search (keeps_rules, Keeps-bind_arguments, Keeps-array_in_slot, Keeps-write_local)

enter_function-Fits : (fn : ScriptFunction) (p : Process) → Fits p → Fits (enter_function fn p)
unfolding enter_function
enter_function-Fits fn p h = record {
  has_slots = h.has_slots;
  in_range = h.in_range;
  frames_fit = (h.in_range, h.frames_fit);
  contexts_fit = h.contexts_fit;
}

Keeps-setup_script_call :
    (fn : ScriptFunction) (this_val : DataType) (args : List DataType)
    → Keeps (setup_script_call fn this_val args)
unfolding setup_script_call
Keeps-setup_script_call fn this_val args =
    search (keeps_rules, enter_function-Fits, Keeps-bind_function_params)

-- Native functions keep the stack pointers in the stack.
pub record HostKeeps (host : Host) : Type 0 where
  pub call_native : (n : ℕ) (args : List DataType) → Keeps (host.call_native n args)

Keeps-push_call_result : (m : M DataType) → Keeps m → Keeps (push_call_result m)
unfolding push_call_result
Keeps-push_call_result m km = search keeps_rules

FitsAfter-found :
    {A : Type 0} (o : Option A) (k : A → M (Unit {0})) (p : Process)
    → ((a : A) → Keeps (k a))
    → Fits p
    → FitsAfter (found o k p)
unfolding found
FitsAfter-found none k p kk h = tt
FitsAfter-found (some a) k p kk h = (kk a).at p h

module _ (host : Host) (native : HostKeeps host) where
  Keeps-native : (n : ℕ) (args : List DataType) → Keeps (push_call_result (host.call_native n args))
  Keeps-native n args = Keeps-push_call_result (host.call_native n args) (native.call_native n args)

  call_function-Fits :
      (k : ℕ) (fn this_val : DataType) (args : List DataType) (p : Process)
      → Fits p
      → FitsAfter (call_function host k fn this_val args p)
  unfolding call_function
  call_function-Fits zero fn this_val args p h = tt
  call_function-Fits (suc k) (native_function r) this_val args p h =
      FitsAfter-found (get_elem? p.heap.natives r)
        (λ f. push_call_result (host.call_native f.fn args)) p (λ f. Keeps-native f.fn args) h
  call_function-Fits (suc k) (native_method r) this_val args p h =
      FitsAfter-found (get_elem? p.heap.methods r)
        (λ m. push_call_result (host.call_native m.method.fn (m.target ∷ args))) p
        (λ m. Keeps-native m.method.fn (m.target ∷ args)) h
  call_function-Fits (suc k) (native_constructor r) this_val args p h =
      FitsAfter-found (get_elem? p.heap.constructors r)
        (λ c. push_call_result (host.call_native c.constructor args)) p
        (λ c. Keeps-native c.constructor args) h
  call_function-Fits (suc k) (bound_function r) this_val args p h =
      FitsAfter-found (get_elem? p.heap.bounds r)
        (λ b. call_function host k b.target b.bound_this (b.bound_args ++ args)) p
        (λ b. record {
          at = λ q hq. call_function-Fits k b.target b.bound_this (b.bound_args ++ args) q hq;
        })
        h
  call_function-Fits (suc k) (script_function r) this_val args p h =
      FitsAfter-found (get_elem? p.heap.functions r) (λ fn. setup_script_call fn this_val args) p
        (λ fn. Keeps-setup_script_call fn this_val args) h
  call_function-Fits (suc k) fn this_val args p h = h

  pub Keeps-call :
      (fn this_val : DataType) (args : List DataType)
      → Keeps (call_function_with_this host fn this_val args)
  unfolding call_function_with_this
  Keeps-call fn this_val args = record {
    at = λ p h. call_function-Fits (length p.heap.bounds + 1) fn this_val args p h;
  }

leave_to-Fits :
    (frame : CallFrame) (outer : List CallFrame) (p : Process)
    → FitsIn p.stack frame.sp outer p.exception_ctx
    → Fits (leave_to frame outer p)
unfolding leave_to
leave_to-Fits frame outer p h = elim (Option-cases frame.body) [
  | inl n ↦ rw n h
  | inr (b, s) ↦ rw s h
]

leave_by-Fits :
    (frames : List CallFrame) (v : DataType) (p : Process)
    → Fits p
    → FramesFit (length p.stack) frames
    → FitsAfter (leave_by frames v p)
unfolding leave_by
leave_by-Fits [] v p h fit =
    let finish : M (Unit {0}) = (do push v; modify λ q. record q { pc = length q.body.code }) in
    let finish-Keeps : Keeps finish = search keeps_rules in
    finish-Keeps.at (record p { sp = 0 }) (FitsIn-cut 0 p.sp (omega arith) h)
leave_by-Fits (frame ∷ outer) v p h (at, fit) = (Keeps-push v).at (leave_to frame outer p) (
    leave_to-Fits frame outer p (record {
      has_slots = h.has_slots;
      in_range = at;
      frames_fit = fit;
      contexts_fit = h.contexts_fit;
    }))

Keeps-leave_with : (v : DataType) → Keeps (leave_with v)
unfolding leave_with
Keeps-leave_with v = record { at = λ p h. leave_by-Fits p.call_stack v p h h.frames_fit }

pub Keeps-return : (b : Bool) → Keeps (return_operation b)
unfolding return_operation
Keeps-return true = search (keeps_rules, Keeps-leave_with)
Keeps-return false = Keeps-leave_with undefined
