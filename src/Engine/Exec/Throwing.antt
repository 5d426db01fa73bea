-- ===== src/Engine/Exec/Throwing.antt =====
-- The throw statement, from its operation to the handler.
use gescript.Base.{ℕ, ◌≡◌, ◌∙◌, ap, true, false, some, none, List, ◌∷◌, ◌++◌, set, refl}
use gescript.Word.{is_neg}
use gescript.Word.Laws.{IsWord}
use gescript.Types.Value.{DataType}
use gescript.Engine.Code.{ExceptionContext}
use gescript.Engine.Process.{
  Process, ok, fail, panic, index_out_of_range, uncaught_exception, throw_value,
}
use gescript.Engine.Process.Stack.{values, top_first-eq-cons, pop-suc}
use gescript.Engine.Ops.Variable.{invalid_slot}
use gescript.Engine.Ops.Exception.{throw_operation}
use gescript.Engine.Ops.Exception.Unwind.{some_handles}
use gescript.Engine.Exec.{recover, after_op}
use gescript.Engine.Exec.Exceptions.{recover_catch, recover-panic, recover_none}

module _ (p : Process) (v : DataType) (vs : List DataType) (e : values p ≡ v ∷ vs) where
  thrown :
      (n : ℕ) × (after_op (throw_operation p) ≡ recover (record p { sp = n; exception = some v }))
  unfolding throw_operation throw_value after_op
  thrown =
      let (n, at, top, below) = top_first-eq-cons p.sp p.stack v vs e in
      (n, rw (pop-suc n p at, top) refl)

  -- A throw takes its value off the stack and, if the first context with a clause has a catch
  -- clause with a variable whose slot is within the locals that are current at the throw, the
  -- loop goes on there with the value in the variable and the stack cut to the depth of the try
  -- statement.
  pub throw-caught :
      (skipped outer : List ExceptionContext) (ctx : ExceptionContext)
      → p.exception_ctx ≡ skipped ++ ctx ∷ outer
      → some_handles skipped ≡ false
      → IsWord ctx.catch_target
      → is_neg ctx.catch_target ≡ false
      → is_neg ctx.catch_var_slot ≡ false
      → invalid_slot p ctx.catch_var_slot ≡ false
      → after_op (throw_operation p)
        ≡ ok tt (record p {
          exception_ctx = outer;
          sp = ctx.stack_depth;
          exception = none;
          locals = set p.locals ctx.catch_var_slot v;
          pc = ctx.catch_target;
        })
  throw-caught skipped outer ctx contexts no_handler w c n s =
      let (k, t) = thrown in
      t
      ∙ recover_catch (record p { sp = k; exception = some v }) skipped outer ctx contexts
          no_handler v refl w c n s

  -- A throw panics where the first context with a clause has a catch clause with a variable
  -- whose slot is not within the locals that are current at the throw.
  pub throw-panic :
      (skipped outer : List ExceptionContext) (ctx : ExceptionContext)
      → p.exception_ctx ≡ skipped ++ ctx ∷ outer
      → some_handles skipped ≡ false
      → is_neg ctx.catch_target ≡ false
      → is_neg ctx.catch_var_slot ≡ false
      → invalid_slot p ctx.catch_var_slot ≡ true
      → after_op (throw_operation p) ≡ panic index_out_of_range
  throw-panic skipped outer ctx contexts no_handler c n s =
      let (k, t) = thrown in
      t
      ∙ recover-panic (record p { sp = k; exception = some v }) skipped outer ctx contexts
          no_handler v refl c n s

  -- A throw with no handler around it ends the run with the error of an uncaught exception, and its
  -- value stays in the process.
  pub throw-uncaught :
      some_handles p.exception_ctx ≡ false
      → (q : Process) × (after_op (throw_operation p) ≡ fail uncaught_exception q)
        × (q.exception ≡ some v)
  throw-uncaught none_handles =
      let (k, t) = thrown in
      let (q, r, same) = recover_none (record p { sp = k; exception = some v }) none_handles in
      (q, t ∙ r, ap (λ (x : Process). x.exception) same)
