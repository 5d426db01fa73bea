-- ===== src/Engine/Exec/Exceptions.antt =====
-- Where the loop goes on after an exception.
use gescript.Base.{◌≡◌, ◌∙◌, refl, ap, true, false, none, some, List, [], ◌∷◌, ◌++◌, arith, set}
use gescript.Word.{Word, is_neg, sub_word}
use gescript.Word.Laws.{IsWord, add_word-sub_word_one}
use gescript.Types.Value.{DataType}
use gescript.Engine.Code.{ExceptionContext}
use gescript.Engine.Process.{Process, ok, fail, panic, index_out_of_range, uncaught_exception}
use gescript.Engine.Ops.Variable.{invalid_slot}
use gescript.Engine.Ops.Exception.{
  unwind, handle_exception, enter_catch, enter_finally, bind_exception, write_local, resume_at,
  finally_complete_operation,
}
use gescript.Engine.Ops.Exception.Unwind.{some_handles, cut_to, cut_past, unwind_none, unwind_skips}
use gescript.Engine.Exec.{recover, after_op}

cut_to-cut_past :
    (ctx : ExceptionContext) (outer skipped rest : List ExceptionContext) (p : Process)
    → cut_to ctx outer (cut_past skipped rest p) ≡ cut_to ctx outer p
cut_to-cut_past ctx outer [] rest p = refl
cut_to-cut_past ctx outer (s ∷ skipped) rest p =
    cut_to-cut_past ctx outer skipped rest (cut_to s (skipped ++ rest) p)

unwind-cons_catch :
    (ctx : ExceptionContext) (outer : List ExceptionContext) (p : Process)
    → is_neg ctx.catch_target ≡ false
    → unwind (ctx ∷ outer) p ≡ enter_catch ctx (cut_to ctx outer p)
unfolding unwind
unwind-cons_catch ctx outer p c = rw c

unwind-cons_finally :
    (ctx : ExceptionContext) (outer : List ExceptionContext) (p : Process)
    → is_neg ctx.catch_target ≡ true
    → is_neg ctx.finally_target ≡ false
    → unwind (ctx ∷ outer) p ≡ enter_finally ctx (cut_to ctx outer p)
unfolding unwind
unwind-cons_finally ctx outer p c f = rw (c, f)

bind_exception_lem :
    (slot : Word) (p : Process) (v : DataType)
    → p.exception ≡ some v
    → is_neg slot ≡ false
    → invalid_slot p slot ≡ false
    → bind_exception slot p ≡ ok tt (record p { locals = set p.locals slot v })
unfolding bind_exception write_local
bind_exception_lem slot p v e n s = ground arith

enter_catch-panic :
    (ctx : ExceptionContext) (p : Process) (v : DataType)
    → p.exception ≡ some v
    → is_neg ctx.catch_var_slot ≡ false
    → invalid_slot p ctx.catch_var_slot ≡ true
    → enter_catch ctx p ≡ panic index_out_of_range
unfolding enter_catch bind_exception write_local
enter_catch-panic ctx p v e n s = rw (n, e, s)

enter_catch_lem :
    (ctx : ExceptionContext) (p : Process) (v : DataType)
    → p.exception ≡ some v
    → is_neg ctx.catch_var_slot ≡ false
    → invalid_slot p ctx.catch_var_slot ≡ false
    → enter_catch ctx p
      ≡ ok true (record p {
        locals = set p.locals ctx.catch_var_slot v;
        exception = none;
        pc = sub_word ctx.catch_target 1;
      })
unfolding enter_catch resume_at
enter_catch_lem ctx p v e n s = rw (bind_exception_lem ctx.catch_var_slot p v e n s)

recover_handled :
    (p q : Process) (t : Word)
    → IsWord t
    → handle_exception p ≡ ok true (record q { pc = sub_word t 1 })
    → recover p ≡ ok tt (record q { pc = t })
unfolding recover
recover_handled p q t w e = rw (e, recover) (rw (add_word-sub_word_one t w))

module _ (p : Process) (skipped outer : List ExceptionContext) (ctx : ExceptionContext)
    (contexts : p.exception_ctx ≡ skipped ++ ctx ∷ outer)
    (no_handler : some_handles skipped ≡ false) where
  first_handler : handle_exception p ≡ unwind (ctx ∷ outer) (cut_past skipped (ctx ∷ outer) p)
  unfolding handle_exception
  first_handler = ap (λ cs. unwind cs p) contexts ∙ unwind_skips skipped (ctx ∷ outer) p no_handler

  -- After a throw the loop passes over the contexts without a clause and, where the first that
  -- has one has a catch clause with a variable whose slot is within the locals that are current
  -- at the throw, goes on at the clause with the exception in that slot and the stack cut to the
  -- depth of the try statement, and changes nothing else.
  pub recover_catch :
      (v : DataType)
      → p.exception ≡ some v
      → IsWord ctx.catch_target
      → is_neg ctx.catch_target ≡ false
      → is_neg ctx.catch_var_slot ≡ false
      → invalid_slot p ctx.catch_var_slot ≡ false
      → recover p
        ≡ ok tt (record p {
          exception_ctx = outer;
          sp = ctx.stack_depth;
          exception = none;
          locals = set p.locals ctx.catch_var_slot v;
          pc = ctx.catch_target;
        })
  recover_catch v e w c n s =
      recover_handled p
        (record (cut_to ctx outer p) {
          locals = set p.locals ctx.catch_var_slot v;
          exception = none;
        })
        ctx.catch_target w
        (first_handler
          ∙ unwind-cons_catch ctx outer (cut_past skipped (ctx ∷ outer) p) c
          ∙ ap (enter_catch ctx) (cut_to-cut_past ctx outer skipped (ctx ∷ outer) p)
          ∙ enter_catch_lem ctx (cut_to ctx outer p) v e n s)

  pub recover-panic :
      (v : DataType)
      → p.exception ≡ some v
      → is_neg ctx.catch_target ≡ false
      → is_neg ctx.catch_var_slot ≡ false
      → invalid_slot p ctx.catch_var_slot ≡ true
      → recover p ≡ panic index_out_of_range
  unfolding recover
  recover-panic v e c n s =
      let panics : handle_exception p ≡ panic index_out_of_range =
        first_handler
        ∙ unwind-cons_catch ctx outer (cut_past skipped (ctx ∷ outer) p) c
        ∙ ap (enter_catch ctx) (cut_to-cut_past ctx outer skipped (ctx ∷ outer) p)
        ∙ enter_catch-panic ctx (cut_to ctx outer p) v e n s in
      rw (panics, recover) refl

  -- The innermost context with a handler has only a finally clause: the loop goes on there, the
  -- stack is cut to its depth at the try statement, and the flag is set by which the end of
  -- the clause throws the exception again.
  pub recover_finally :
      IsWord ctx.finally_target
      → is_neg ctx.catch_target ≡ true
      → is_neg ctx.finally_target ≡ false
      → recover p
        ≡ ok tt (record p {
          exception_ctx = outer;
          sp = ctx.stack_depth;
          finally_rethrow = true;
          pc = ctx.finally_target;
        })
  unfolding enter_finally resume_at
  recover_finally w c f =
      recover_handled p (record (cut_to ctx outer p) { finally_rethrow = true }) ctx.finally_target
        w
        (first_handler
          ∙ unwind-cons_finally ctx outer (cut_past skipped (ctx ∷ outer) p) c f
          ∙ ap (enter_finally ctx) (cut_to-cut_past ctx outer skipped (ctx ∷ outer) p))

-- With no handler the run ends with the error of an uncaught exception.
pub recover_none :
    (p : Process)
    → some_handles p.exception_ctx ≡ false
    → (q : Process) × (recover p ≡ fail uncaught_exception q)
      × (q ≡ record p { exception_ctx = []; sp = q.sp })
unfolding handle_exception recover
recover_none p h = let (q, e, same) = unwind_none p.exception_ctx p h in (q, rw (e, recover), same)

pub finally_complete-rethrow :
    (p : Process)
    → p.finally_rethrow ≡ true
    → after_op (finally_complete_operation p) ≡ recover (record p { finally_rethrow = false })
unfolding finally_complete_operation after_op
finally_complete-rethrow p h = rw h
