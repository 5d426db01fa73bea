-- ===== src/Tests/Process.antt =====
-- The theorems on the process and its operations at concrete inputs.
use gescript.Base.{◌≡◌, refl, [], ◌∷◌, Bytes, codes, true, false, none, some, arith}
use gescript.Word.{minus_one}
use gescript.Types.Value.{nil, undefined, integer, object, StringMap}
use gescript.Types.Object.{lookup}
use gescript.Engine.Code.{ExceptionContext, OpCode}
use gescript.Engine.Heap.{holds, alloc_object}
use gescript.Engine.Process.{
  panic, index_out_of_range, Process, new_process, CallFrame, ok, push, pop,
}
use gescript.Engine.Process.Stack.{Leaves, values, push-Leaves, pop-Leaves}
use gescript.Engine.Ops.Variable.{load_variable_operation, write_cell, update_slot, increment_value}
use gescript.Engine.Ops.Closure.Sharing.{HasCell, load-write_cell, load-update_slot}
use gescript.Engine.Ops.Literal.{new_object_operation}
use gescript.Engine.Ops.Literal.Objects.{first_of, new_object-first}
use gescript.Engine.Ops.Exception.{finally_complete_operation, throw_operation}
use gescript.Engine.Ops.Call.{frame_of, leave_with}
use gescript.Engine.Exec.{recover, after_op}
use gescript.Engine.Exec.Exceptions.{recover_catch, recover_finally}
use gescript.Engine.Exec.Finally.{recover-finally_complete}
use gescript.Engine.Exec.Throwing.{throw-caught, throw-panic}
use gescript.Engine.Exec.Returns.{caller_state, return-restores, return_native-restarts}
use gescript.Tests.Sample.{no_heap, body_of, with_stack}

abbrev two_slots : Process
two_slots = with_stack (integer 1 ∷ nil ∷ []) 1

abbrev full : Process
full = with_stack (integer 1 ∷ integer 2 ∷ []) 2

push-Leaves_example :
    Leaves full tt (integer 3 ∷ integer 2 ∷ integer 1 ∷ []) (push (integer 3) full)
push-Leaves_example =
    push-Leaves (integer 3) full (record { has_slots = omega arith; in_range = omega arith })

pop-Leaves_example : Leaves full (integer 2) (integer 1 ∷ []) (pop full)
pop-Leaves_example =
    pop-Leaves (integer 2) (integer 1 ∷ []) full
      (record { has_slots = omega arith; in_range = omega arith }) refl

-- A try statement with no clause around the throw, in one with a catch clause.
abbrev no_clause : ExceptionContext
no_clause = record {
  catch_target = minus_one;
  finally_target = minus_one;
  end_target = 9;
  stack_depth = 1;
  catch_var_slot = minus_one;
}

abbrev with_catch : ExceptionContext
with_catch = record no_clause { catch_target = 5; catch_var_slot = 0; stack_depth = 0 }

abbrev with_finally : ExceptionContext
with_finally = record no_clause { finally_target = 6 }

abbrev throwing : ExceptionContext → Process
throwing ctx = record two_slots {
  exception_ctx = no_clause ∷ ctx ∷ [];
  exception = some (integer 7);
  locals = undefined ∷ [];
}

recover_catch_example :
    recover (throwing with_catch)
    ≡ ok tt (record (throwing with_catch) {
      exception_ctx = [];
      sp = 0;
      exception = none;
      locals = integer 7 ∷ [];
      pc = 5;
    })
recover_catch_example =
    recover_catch (throwing with_catch) (no_clause ∷ []) [] with_catch refl refl (integer 7) refl
      (omega arith) refl refl refl

throw-caught_example :
    after_op (throw_operation (throwing with_catch))
    ≡ ok tt (record (throwing with_catch) {
      exception_ctx = [];
      sp = 0;
      exception = none;
      locals = integer 1 ∷ [];
      pc = 5;
    })
throw-caught_example =
    throw-caught (throwing with_catch) (integer 1) [] refl (no_clause ∷ []) [] with_catch refl refl
      (omega arith) refl refl refl

recover_finally_example :
    recover (throwing with_finally)
    ≡ ok tt (record (throwing with_finally) {
      exception_ctx = [];
      sp = 1;
      finally_rethrow = true;
      pc = 6;
    })
recover_finally_example =
    recover_finally (throwing with_finally) (no_clause ∷ []) [] with_finally refl refl (omega arith)
      refl refl

-- An exception under a try statement with a finally clause, in one with a catch clause; and the
-- process at the end of the finally clause.
abbrev passing : Process
passing = record (throwing with_finally) {
  exception_ctx = no_clause ∷ with_finally ∷ with_catch ∷ [];
}

abbrev clause_done : Process
clause_done = record passing { exception_ctx = with_catch ∷ []; finally_rethrow = true }

recover-finally_complete_example :
    (recover passing
      ≡ ok tt (record passing {
        exception_ctx = with_catch ∷ [];
        sp = 1;
        finally_rethrow = true;
        pc = 6;
      }))
    × (after_op (finally_complete_operation clause_done)
        ≡ ok tt (record clause_done {
          exception_ctx = [];
          sp = 0;
          exception = none;
          finally_rethrow = false;
          locals = integer 7 ∷ [];
          pc = 5;
        }))
recover-finally_complete_example =
    recover-finally_complete passing clause_done (no_clause ∷ []) [] [] with_finally with_catch
      (integer 7) refl refl refl (omega arith) refl refl (omega arith) refl refl refl refl refl refl
      refl

throw-panic_example :
    after_op (throw_operation (record (throwing with_catch) { locals = [] }))
    ≡ panic index_out_of_range
throw-panic_example =
    throw-panic (record (throwing with_catch) { locals = [] }) (integer 1) [] refl (no_clause ∷ [])
      [] with_catch refl refl refl refl refl

-- A function of one local, called with two values on the stack and a third above them.
abbrev callee : CallFrame → Process
callee frame = record (with_stack (integer 1 ∷ integer 2 ∷ integer 3 ∷ nil ∷ []) 3) {
  call_stack = frame ∷ [];
  body = body_of (OpCode.return_op false ∷ []) 1;
  locals = integer 5 ∷ [];
}

abbrev scripted : Process
scripted = callee (frame_of full)

abbrev by_native : Process
by_native = callee (record (frame_of full) { body = none; pc = 0 })

return-restores_example :
    Leaves
      (caller_state full scripted [] (omega arith) (omega arith))
      tt
      (integer 9 ∷ integer 2 ∷ integer 1 ∷ [])
      (leave_with (integer 9) scripted)
return-restores_example =
    return-restores full scripted [] (omega arith) (omega arith) (integer 9) refl

return_native-restarts_example :
    (r : Process) × (after_op (leave_with (integer 9) by_native) ≡ ok tt r)
    × (r.pc ≡ 0)
    × (r.body ≡ by_native.body)
    × (r.locals ≡ full.locals)
    × (values r ≡ integer 9 ∷ integer 2 ∷ integer 1 ∷ [])
return_native-restarts_example =
    return_native-restarts full by_native [] (omega arith) (omega arith) (integer 9) refl

-- A captured local whose cell is the only one.
abbrev captured : Process
captured = record two_slots {
  locals = integer 1 ∷ [];
  cells = some 0 ∷ [];
  heap = record no_heap { cells = holds (integer 2) ∷ [] };
}

captured-HasCell : HasCell captured 0 0 (integer 2)
captured-HasCell = record { in_locals = refl; at_slot = refl; held = refl }

load-write_cell_example :
    (q : Process) × (write_cell 0 (integer 3) captured ≡ ok tt q)
    × (load_variable_operation 0 q ≡ push (integer 3) q)
load-write_cell_example =
    load-write_cell captured 0 0 (integer 2) (integer 3) captured-HasCell (omega arith)

load-update_slot_example :
    (q : Process) × (update_slot increment_value (λ old new. new) 0 captured ≡ ok tt q)
    × (load_variable_operation 0 q ≡ push (integer 2) q)
load-update_slot_example =
    load-update_slot increment_value (λ old new. new) captured 0 0 (integer 2)
      (record { has_slots = omega arith; in_range = omega arith }) captured-HasCell

-- { a: 1, a: 2 }
new_object-first_example :
    (m : StringMap) × ((j : Bytes)
      → lookup m j ≡ first_of (codes "a" ∷ codes "a" ∷ []) (integer 1 ∷ integer 2 ∷ []) j)
    × Leaves
        (record full { heap = alloc_object no_heap m })
        tt
        (object 0 ∷ [])
        (new_object_operation (codes "a" ∷ codes "a" ∷ []) full)
unfolding new_process
new_object-first_example =
    new_object-first (codes "a" ∷ codes "a" ∷ []) (integer 1 ∷ integer 2 ∷ []) [] full
      (record { has_slots = omega arith; in_range = omega arith }) refl refl
