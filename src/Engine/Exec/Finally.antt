-- ===== src/Engine/Exec/Finally.antt =====
-- An exception on its way through a finally clause to a catch clause.
use gescript.Base.{◌≡◌, ◌∙◌, true, false, none, some, List, ◌∷◌, ◌++◌, set}
use gescript.Word.{is_neg}
use gescript.Word.Laws.{IsWord}
use gescript.Types.Value.{DataType}
use gescript.Engine.Code.{ExceptionContext}
use gescript.Engine.Process.{Process, ok}
use gescript.Engine.Ops.Variable.{invalid_slot}
use gescript.Engine.Ops.Exception.{finally_complete_operation}
use gescript.Engine.Ops.Exception.Unwind.{some_handles}
use gescript.Engine.Exec.{recover, after_op}
use gescript.Engine.Exec.Exceptions.{recover_catch, recover_finally, finally_complete-rethrow}

-- An exception whose first context with a clause has a finally clause only enters that clause
-- with the stack cut to its depth; and whenever a finally clause ends with the flag and the
-- exception set and the contexts as they then were, the loop goes on at the catch clause of the
-- next context with a clause, if that has one whose variable has its slot within the locals
-- current then, with the flag and the exception cleared.
pub recover-finally_complete :
    (p q : Process) (skipped between outer : List ExceptionContext)
    (clause handler : ExceptionContext) (v : DataType)
    → p.exception_ctx ≡ skipped ++ clause ∷ (between ++ handler ∷ outer)
    → some_handles skipped ≡ false
    → some_handles between ≡ false
    → IsWord clause.finally_target
    → is_neg clause.catch_target ≡ true
    → is_neg clause.finally_target ≡ false
    → IsWord handler.catch_target
    → is_neg handler.catch_target ≡ false
    → is_neg handler.catch_var_slot ≡ false
    → p.exception ≡ some v
    → q.exception_ctx ≡ between ++ handler ∷ outer
    → q.exception ≡ some v
    → q.finally_rethrow ≡ true
    → invalid_slot q handler.catch_var_slot ≡ false
    → (recover p
        ≡ ok tt (record p {
          exception_ctx = between ++ handler ∷ outer;
          sp = clause.stack_depth;
          finally_rethrow = true;
          pc = clause.finally_target;
        }))
      × (after_op (finally_complete_operation q)
          ≡ ok tt (record q {
            exception_ctx = outer;
            sp = handler.stack_depth;
            exception = none;
            finally_rethrow = false;
            locals = set q.locals handler.catch_var_slot v;
            pc = handler.catch_target;
          }))
recover-finally_complete p q skipped between outer clause handler v contexts none_first none_between
      wf cf ff wc cc_pos var_pos thrown left kept flag slot =
    (
      recover_finally p skipped (between ++ handler ∷ outer) clause contexts none_first wf cf ff,
      finally_complete-rethrow q flag
          ∙ recover_catch (record q { finally_rethrow = false }) between outer handler left
              none_between v kept wc cc_pos var_pos slot,
    )
