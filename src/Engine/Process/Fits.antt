-- ===== src/Engine/Process/Fits.antt =====
-- The invariant of the stack pointers of a process, and the rules for actions that keep it: its
-- own, those that the frames of the calls keep, and the depths of the contexts of the try
-- statements are within the stack.
use gescript.Base.{
  ℕ, zero, suc, ◌<◌, ◌≤◌, ◌≡◌, refl, sym, Bool, true, false, Option, none, some, List, [], ◌∷◌,
  arith, leb, if◌then◌else◌, length, set, replicate, length-append, length-set, Bool-cases, inl,
  inr,
}
use mathlib.Core.Path.{subst}
use gescript.Types.Value.{DataType, nil}
use gescript.Engine.Code.{ExceptionContext}
use gescript.Engine.Process.{
  Process, CallFrame, Error, Fault, Outcome, M, continue, ◌>>=◌, ok, fail, panic, pure, gets,
  modify, return_err, throw_fault, ignore_err, grow, push, peek, pop, throw_value,
}

-- The frames were made with at most `n` values on the stack.
abbrev pub FramesFit : ℕ → List CallFrame → Type 0
FramesFit n [] = Unit
FramesFit n (f ∷ fs) = (f.sp ≤ n) × FramesFit n fs

abbrev pub ContextsFit : ℕ → List ExceptionContext → Type 0
ContextsFit n [] = Unit
ContextsFit n (c ∷ cs) = (c.stack_depth ≤ n) × ContextsFit n cs

pub record FitsIn (stack : List DataType) (sp : ℕ) (frames : List CallFrame)
    (contexts : List ExceptionContext) : Type 0 where
  pub has_slots : 0 < length stack
  pub in_range : sp ≤ length stack
  pub frames_fit : FramesFit (length stack) frames
  pub contexts_fit : ContextsFit (length stack) contexts

abbrev pub Fits : Process → Type 0
Fits p = FitsIn p.stack p.sp p.call_stack p.exception_ctx

-- The outcome's process fits, after a failure too. A panic leaves none.
abbrev pub FitsAfter {ℓ} : {A : Type ℓ} → Outcome A → Type 0
FitsAfter (ok a p) = Fits p
FitsAfter (fail e p) = Fits p
FitsAfter (panic x) = Unit

pub record Keeps {ℓ} {A : Type ℓ} (m : M A) : Type ℓ where
  pub at : (p : Process) → Fits p → FitsAfter (m p)

pub FramesFit-le : (fs : List CallFrame) (m n : ℕ) → m ≤ n → FramesFit m fs → FramesFit n fs
FramesFit-le [] m n h fit = tt
FramesFit-le (f ∷ fs) m n h (at, fit) = (omega arith, FramesFit-le fs m n h fit)

pub ContextsFit-le :
    (cs : List ExceptionContext) (m n : ℕ) → m ≤ n → ContextsFit m cs → ContextsFit n cs
ContextsFit-le [] m n h fit = tt
ContextsFit-le (c ∷ cs) m n h (at, fit) = (omega arith, ContextsFit-le cs m n h fit)

module _ {ℓ} {A : Type ℓ} where
  pub Keeps-pure : (a : A) → Keeps (pure a)
  Keeps-pure a = record { at = λ p h. h }

  pub Keeps-return_err : (e : Error) → Keeps (return_err {A = A} e)
  Keeps-return_err e = record { at = λ p h. h }

  pub Keeps-throw_fault : (x : Fault) → Keeps (throw_fault {A = A} x)
  Keeps-throw_fault x = record { at = λ p h. tt }

  pub Keeps-gets : (f : Process → A) → Keeps (gets f)
  Keeps-gets f = record { at = λ p h. h }

  pub Keeps-throw_value : (v : DataType) → Keeps (throw_value {A = A} v)
  unfolding throw_value
  Keeps-throw_value v = record { at = λ p h. h }

  pub Keeps-if : (b : Bool) (m n : M A) → Keeps m → Keeps n → Keeps (if b then m else n)
  Keeps-if true m n km kn = km
  Keeps-if false m n km kn = kn

  pub FitsAfter-if :
      (b : Bool) (x y : Outcome A) → FitsAfter x → FitsAfter y → FitsAfter (if b then x else y)
  FitsAfter-if true x y hx hy = hx
  FitsAfter-if false x y hx hy = hy

module _ {ℓ κ} {A : Type ℓ} {B : Type κ} where
  FitsAfter-continue :
      (o : Outcome A) (k : A → M B)
      → FitsAfter o
      → ((a : A) → Keeps (k a))
      → FitsAfter (continue o k)
  FitsAfter-continue (ok a p) k h kk = (kk a).at p h
  FitsAfter-continue (fail e p) k h kk = h
  FitsAfter-continue (panic x) k h kk = tt

  pub Keeps-bind : (m : M A) (k : A → M B) → Keeps m → ((a : A) → Keeps (k a)) → Keeps (m >>= k)
  Keeps-bind m k km kk = record { at = λ p h. FitsAfter-continue (m p) k (km.at p h) kk }

pub Keeps-modify :
    (f : Process → Process) → ((p : Process) → Fits p → Fits (f p)) → Keeps (modify f)
Keeps-modify f kf = record { at = λ p h. kf p h }

FitsAfter-ignore :
    (o : Outcome DataType)
    → FitsAfter o
    → FitsAfter {A = Unit {0}}
        (elim o [ ok a q ↦ ok tt q | fail e q ↦ ok tt q | panic x ↦ panic x ])
FitsAfter-ignore (ok a q) h = h
FitsAfter-ignore (fail e q) h = h
FitsAfter-ignore (panic x) h = tt

pub Keeps-ignore_err : (m : M DataType) → Keeps m → Keeps (ignore_err m)
Keeps-ignore_err m km = record { at = λ p h. FitsAfter-ignore (m p) (km.at p h) }

-- The stack that `push` writes to.
FitsIn-room :
    (full : Bool) (stack : List DataType) (sp : ℕ) (frames : List CallFrame)
    (contexts : List ExceptionContext)
    → FitsIn stack sp frames contexts
    → FitsIn (if full then grow stack else stack) sp frames contexts
FitsIn-room false stack sp frames contexts h = h
FitsIn-room true stack sp frames contexts h =
    let longer : length stack ≤ length (grow stack) =
      omega (arith, length-append stack (replicate (length stack) nil)) in
    record {
      has_slots = omega (arith, h.has_slots);
      in_range = omega (arith, h.in_range);
      frames_fit = FramesFit-le frames (length stack) (length (grow stack)) longer h.frames_fit;
      contexts_fit =
          ContextsFit-le contexts (length stack) (length (grow stack)) longer h.contexts_fit;
    }

FitsIn-set :
    (stack : List DataType) (sp : ℕ) (v : DataType) (frames : List CallFrame)
    (contexts : List ExceptionContext)
    → FitsIn stack sp frames contexts
    → leb (length stack) sp ≡ false
    → FitsIn (set stack sp v) (suc sp) frames contexts
FitsIn-set stack sp v frames contexts h below =
    let same = sym (length-set stack sp v) in
    record {
      has_slots = omega (arith, h.has_slots, same);
      in_range = ground (arith, same);
      frames_fit = subst (λ k. FramesFit k frames) same h.frames_fit;
      contexts_fit = subst (λ k. ContextsFit k contexts) same h.contexts_fit;
    }

pub Keeps-push : (v : DataType) → Keeps (push v)
unfolding push
Keeps-push v = record {
  at = λ p h.
      let stack = if leb (length p.stack) p.sp then grow p.stack else p.stack in
      let h' : FitsIn stack p.sp p.call_stack p.exception_ctx =
        FitsIn-room (leb (length p.stack) p.sp) p.stack p.sp p.call_stack p.exception_ctx h in
      elim (Bool-cases (leb (length stack) p.sp)) [
        | inl full ↦ rw full tt
        | inr roomy ↦ rw roomy (FitsIn-set stack p.sp v p.call_stack p.exception_ctx h' roomy)
      ];
}

-- The stack may be cut.
pub FitsIn-cut :
    {stack : List DataType} {frames : List CallFrame} {contexts : List ExceptionContext} (m n : ℕ)
    → m ≤ n
    → FitsIn stack n frames contexts
    → FitsIn stack m frames contexts
FitsIn-cut m n below h = record {
  has_slots = h.has_slots;
  in_range = omega (arith, h.in_range);
  frames_fit = h.frames_fit;
  contexts_fit = h.contexts_fit;
}

FitsAfter-peek : (n : ℕ) (p : Process) → Fits p → p.sp ≡ n → FitsAfter (peek p)
unfolding peek
FitsAfter-peek zero p h e = rw e (FitsIn-cut zero p.sp (omega arith) h)
FitsAfter-peek (suc n) p h e = rw e (FitsIn-cut (suc n) p.sp (omega arith) h)

pub Keeps-peek : Keeps peek
Keeps-peek = record { at = λ p h. FitsAfter-peek p.sp p h refl }

FitsAfter-pop : (n : ℕ) (p : Process) → Fits p → p.sp ≡ n → FitsAfter (pop p)
unfolding pop
FitsAfter-pop zero p h e = rw e (FitsIn-cut zero p.sp (omega arith) h)
FitsAfter-pop (suc n) p h e = rw e (FitsIn-cut n p.sp (omega arith) h)

pub Keeps-pop : Keeps pop
Keeps-pop = record { at = λ p h. FitsAfter-pop p.sp p h refl }

-- A result of the heap, or the outcome where there is none.
pub FitsAfter-option {ℓ κ} :
    {A : Type ℓ} {B : Type κ} (o : Option A) (none_case : Outcome B) (some_case : A → Outcome B)
    → FitsAfter none_case
    → ((a : A) → FitsAfter (some_case a))
    → FitsAfter (elim o [ none ↦ none_case | some a ↦ some_case a ])
FitsAfter-option none x f hx hf = hx
FitsAfter-option (some a) x f hx hf = hf a

pub ruleset keeps_rules = (
  Keeps-pure, Keeps-return_err, Keeps-throw_fault, Keeps-gets, Keeps-throw_value, Keeps-if,
  Keeps-bind, Keeps-ignore_err, Keeps-push, Keeps-peek, Keeps-pop, Keeps-modify,
)
