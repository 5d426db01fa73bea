-- ===== src/Engine/Ops/Exception/Unwind.antt =====
-- Where an exception goes.
use gescript.Base.{
  ◌≡◌, ◌∙◌, refl, Bool, false, not, ◌||◌, List, [], ◌∷◌, ◌++◌, arith, Bool-cases, inl, inr,
}
use gescript.Word.{is_neg}
use gescript.Engine.Code.{ExceptionContext}
use gescript.Engine.Process.{Process, ok}
use gescript.Engine.Ops.Exception.{unwind}

-- A context with a handler.
abbrev pub handles : ExceptionContext → Bool
handles ctx = not (is_neg ctx.catch_target) || not (is_neg ctx.finally_target)

abbrev pub some_handles : List ExceptionContext → Bool
some_handles [] = false
some_handles (ctx ∷ outer) = handles ctx || some_handles outer

-- The process that the next context finds.
abbrev pub cut_to : ExceptionContext → List ExceptionContext → Process → Process
cut_to ctx outer p = record p { exception_ctx = outer; sp = ctx.stack_depth }

unwind-cons_none :
    (ctx : ExceptionContext) (outer : List ExceptionContext) (p : Process)
    → handles ctx ≡ false
    → unwind (ctx ∷ outer) p ≡ unwind outer (cut_to ctx outer p)
unfolding unwind
unwind-cons_none ctx outer p h = elim (Bool-cases (is_neg ctx.catch_target)) [
  | inl a ↦ elim (Bool-cases (is_neg ctx.finally_target)) [
    | inl b ↦ rw (a, b)
    | inr b ↦ absurd (ground arith)
  ]
  | inr a ↦ absurd (ground arith)
]

-- No context handles the exception: the answer is no, the contexts are gone, and of the rest only
-- the stack may have been cut.
pub unwind_none :
    (ctxs : List ExceptionContext) (p : Process)
    → some_handles ctxs ≡ false
    → (q : Process) × (unwind ctxs p ≡ ok false q)
      × (q ≡ record p { exception_ctx = []; sp = q.sp })
unfolding unwind
unwind_none [] p h = (record p { exception_ctx = [] }, refl, refl)
unwind_none (ctx ∷ outer) p h =
    let (q, e, same) = unwind_none outer (cut_to ctx outer p) (ground arith) in
    (q, unwind-cons_none ctx outer p (ground arith) ∙ e, same)

-- What the contexts that are passed over leave of the process.
abbrev pub cut_past : List ExceptionContext → List ExceptionContext → Process → Process
cut_past [] rest p = p
cut_past (ctx ∷ skipped) rest p = cut_past skipped rest (cut_to ctx (skipped ++ rest) p)

-- Contexts without a handler are passed over, up to the first that has one.
pub unwind_skips :
    (skipped rest : List ExceptionContext) (p : Process)
    → some_handles skipped ≡ false
    → unwind (skipped ++ rest) p ≡ unwind rest (cut_past skipped rest p)
unwind_skips [] rest p h = refl
unwind_skips (s ∷ skipped) rest p h =
    unwind-cons_none s (skipped ++ rest) p (ground arith)
    ∙ unwind_skips skipped rest (cut_to s (skipped ++ rest) p) (ground arith)
