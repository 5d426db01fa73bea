-- ===== src/Engine/Ops/Exception.antt =====
-- The operations of the try statement, and the unwinding of its contexts.
pub mod Unwind
use gescript.Base.{
  ℕ, Bool, true, false, not, ◌||◌, ◌≡◌, Option, none, some, List, [], ◌∷◌, leb, if◌then◌else◌,
  length, set,
}
use gescript.Word.{Word, is_neg, sub_word}
use gescript.Types.Value.{DataType}
use gescript.Engine.Code.{ExceptionContext}
use gescript.Engine.Process.{
  M, Process, Outcome, ok, fail, panic, exception, index_out_of_range, nil_dereference, pure,
  modify, ◌>>=◌, ◌>>◌, pop, throw_value,
}
use gescript.Engine.Ops.Variable.{invalid_slot}

unfoldable pub push_exception_context_operation : ExceptionContext → M (Unit {0})
push_exception_context_operation src =
    modify λ p. record p { exception_ctx = record src { stack_depth = p.sp } ∷ p.exception_ctx }

abbrev pub tail {ℓ} : {A : Type ℓ} → List A → List A
tail [] = []
tail (x ∷ xs) = xs

unfoldable pub pop_exception_context_operation : M (Unit {0})
pop_exception_context_operation = modify λ p. record p { exception_ctx = tail p.exception_ctx }

unfoldable pub throw_operation : M (Unit {0})
throw_operation = do val ← pop; throw_value val

unfoldable pub finally_complete_operation : M (Unit {0})
finally_complete_operation p =
    if p.finally_rethrow then fail exception (record p { finally_rethrow = false }) else ok tt p

-- prc.locals[slot] = val, with no test of the slot
unfoldable pub write_local : Word → DataType → M (Unit {0})
write_local slot val p =
    if invalid_slot p slot
    then panic index_out_of_range
    else ok tt (record p { locals = set p.locals slot val })

-- The catch variable takes the exception, if there is a variable.
unfoldable pub bind_exception : Word → M (Unit {0})
bind_exception slot p =
    if is_neg slot
    then ok tt p
    else elim p.exception [ none ↦ panic nil_dereference | some v ↦ write_local slot v p ]

unfoldable pub resume_at : Word → M Bool
resume_at target p = ok true (record p { pc = sub_word target 1 })

unfoldable pub enter_catch : ExceptionContext → M Bool
enter_catch ctx = do
  bind_exception ctx.catch_var_slot
  modify λ p. record p { exception = none }
  resume_at ctx.catch_target

unfoldable pub enter_finally : ExceptionContext → M Bool
enter_finally ctx = do modify λ p. record p { finally_rethrow = true }; resume_at ctx.finally_target

-- The loop of handleException over the contexts, innermost first.
unfoldable pub unwind : List ExceptionContext → M Bool
unwind [] p = ok false (record p { exception_ctx = [] })
unwind (ctx ∷ outer) p =
    let popped = record p { exception_ctx = outer; sp = ctx.stack_depth } in
    let further = unwind outer popped in
    if not (is_neg ctx.catch_target)
    then enter_catch ctx popped
    else if not (is_neg ctx.finally_target)
    then enter_finally ctx popped
    else further

-- prc.handleException(); false if no context handles the exception.
unfoldable pub handle_exception : M Bool
handle_exception p = unwind p.exception_ctx p
