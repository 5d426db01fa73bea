-- ===== src/Engine/Exec/Kept/Unwinding.antt =====
-- The stack pointers of a process through the try statement's operations and the unwinding of its
-- contexts.
use gescript.Base.{ℕ, List, [], ◌∷◌, not, length}
use gescript.Word.{Word, is_neg}
use gescript.Engine.Code.{ExceptionContext}
use gescript.Engine.Process.{Process, ok, fail, panic, exception, nil_dereference}
use gescript.Engine.Process.Fits.{
  Fits, ContextsFit, FitsAfter, FitsAfter-if, FitsAfter-option, Keeps, keeps_rules,
}
use gescript.Engine.Ops.Exception.{
  write_local, bind_exception, resume_at, enter_catch, enter_finally, unwind, handle_exception,
  push_exception_context_operation, pop_exception_context_operation, throw_operation, tail,
  finally_complete_operation,
}
use gescript.Engine.Exec.Kept.Locals.{Keeps-write_local}

pub Keeps-push_exception_context :
    (c : ExceptionContext) → Keeps (push_exception_context_operation c)
unfolding push_exception_context_operation
Keeps-push_exception_context c = record {
  at = λ p h. record {
    has_slots = h.has_slots;
    in_range = h.in_range;
    frames_fit = h.frames_fit;
    contexts_fit = (h.in_range, h.contexts_fit);
  };
}

tail-ContextsFit : (n : ℕ) (cs : List ExceptionContext) → ContextsFit n cs → ContextsFit n (tail cs)
tail-ContextsFit n [] fit = tt
tail-ContextsFit n (c ∷ cs) (at, fit) = fit

pub Keeps-pop_exception_context : Keeps pop_exception_context_operation
unfolding pop_exception_context_operation
Keeps-pop_exception_context = record {
  at = λ p h. record {
    has_slots = h.has_slots;
    in_range = h.in_range;
    frames_fit = h.frames_fit;
    contexts_fit = tail-ContextsFit (length p.stack) p.exception_ctx h.contexts_fit;
  };
}

pub Keeps-throw : Keeps throw_operation
unfolding throw_operation
Keeps-throw = search keeps_rules

pub Keeps-finally_complete : Keeps finally_complete_operation
unfolding finally_complete_operation
Keeps-finally_complete = record {
  at = λ p h. FitsAfter-if {A = Unit {0}} p.finally_rethrow (fail exception _) (ok tt p) h h;
}

Keeps-resume_at : (t : Word) → Keeps (resume_at t)
unfolding resume_at
Keeps-resume_at t = record { at = λ p h. h }

Keeps-bind_exception : (slot : Word) → Keeps (bind_exception slot)
unfolding bind_exception
Keeps-bind_exception slot = record {
  at = λ p h. FitsAfter-if (is_neg slot) (ok tt p) _ h (
      FitsAfter-option p.exception (panic nil_dereference) (λ v. write_local slot v p) tt
        λ v. (Keeps-write_local slot v).at p h);
}

Keeps-enter_catch : (c : ExceptionContext) → Keeps (enter_catch c)
unfolding enter_catch
Keeps-enter_catch c = search (keeps_rules, Keeps-bind_exception, Keeps-resume_at)

Keeps-enter_finally : (c : ExceptionContext) → Keeps (enter_finally c)
unfolding enter_finally
Keeps-enter_finally c = search (keeps_rules, Keeps-resume_at)

unwind-Fits :
    (cs : List ExceptionContext) (p : Process)
    → Fits p
    → ContextsFit (length p.stack) cs
    → FitsAfter (unwind cs p)
unfolding unwind
unwind-Fits [] p h fit = record {
  has_slots = h.has_slots;
  in_range = h.in_range;
  frames_fit = h.frames_fit;
  contexts_fit = tt;
}
unwind-Fits (c ∷ outer) p h (at, fit) =
    let popped : Process = record p { exception_ctx = outer; sp = c.stack_depth } in
    let h' : Fits popped = record {
      has_slots = h.has_slots;
      in_range = at;
      frames_fit = h.frames_fit;
      contexts_fit = fit;
    } in
    FitsAfter-if (not (is_neg c.catch_target)) (enter_catch c popped) _
      ((Keeps-enter_catch c).at popped h')
      (FitsAfter-if (not (is_neg c.finally_target)) (enter_finally c popped) (unwind outer popped)
        ((Keeps-enter_finally c).at popped h') (unwind-Fits outer popped h' fit))

pub handle_exception-Fits : (p : Process) → Fits p → FitsAfter (handle_exception p)
unfolding handle_exception
handle_exception-Fits p h = unwind-Fits p.exception_ctx p h h.contexts_fit
