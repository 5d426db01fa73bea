-- ===== src/Engine/Process.antt =====
-- The Process of internal/engine/engine.go and the operations on it as actions of a monad: an
-- operation returns, fails with a Go error, or panics. What it wrote before a failure stays written.
pub mod Stack
pub mod Fits
use gescript.Base.{
  ℕ, zero, suc, ◌+◌, ◌-◌, ◌*◌, Bool, true, false, Option, none, some, List, [], ◌∷◌, ◌++◌, Bytes,
  leb, ◌==◌, if◌then◌else◌, length, get_or, set, replicate,
}
use gescript.Word.{Word}
use gescript.Types.Value.{DataType, nil, undefined, Ref, StringMap}
use gescript.Types.Object.{lookup, insert}
use gescript.Engine.Code.{Function, ExceptionContext}
use gescript.Engine.Heap.{Heap}

-- A frame with no body is the mark that a native caller leaves.
pub record CallFrame : Type 0 where
  pub body : Option Function
  pub pc : Word
  pub sp : ℕ
  pub locals : List DataType
  pub cells : List (Option Ref)
  pub closure : List (Option Ref)

-- The linked lists of contexts and of frames are lists, the innermost first. The slots of `stack`
-- from `sp` on hold what was there before.
pub record Process : Type 0 where
  pub body : Function
  pub pc : Word
  pub stack : List DataType
  pub sp : ℕ
  pub locals : List DataType
  pub exception_ctx : List ExceptionContext
  pub exception : Option DataType
  pub finally_rethrow : Bool
  pub call_stack : List CallFrame
  pub cells : List (Option Ref)
  pub closure : List (Option Ref)
  pub natives : StringMap
  pub globals : StringMap
  pub constructors : List Ref
  pub heap : Heap

-- ErrException, ErrStackUnderflow, the TypeError of a call, and the errors of native functions.
pub data Error : Type 0 where
  exception stack_underflow uncaught_exception : Error
  not_a_function : DataType → Error
  native_error : Bytes → Error

-- Panics of Go. `writes_undefined` is a write to the package variable types.Undefined, and
-- `stack_overflow` an unbounded recursion: the model stops at both.
pub data Fault : Type 0 where
  index_out_of_range nil_dereference writes_undefined stack_overflow : Fault

pub data Outcome {ℓ} (A : Type ℓ) : Type ℓ where
  ok : A → Process → Outcome A
  fail : Error → Process → Outcome A
  panic : Fault → Outcome A

abbrev pub M {ℓ} : Type ℓ → Type ℓ
M A = Process → Outcome A

abbrev pub continue {ℓ κ} : {A : Type ℓ} {B : Type κ} → Outcome A → (A → M B) → Outcome B
continue (ok a p) f = f a p
continue (fail e p) f = fail e p
continue (panic x) f = panic x

infixl 5 ◌>>=◌ ◌>>◌
abbrev pub ◌>>=◌ {ℓ κ} : {A : Type ℓ} {B : Type κ} → M A → (A → M B) → M B
◌>>=◌ m f p = continue (m p) f

abbrev pub ◌>>◌ {ℓ κ} : {A : Type ℓ} {B : Type κ} → M A → M B → M B
m >> k = m >>= λ _. k

abbrev pub pure {ℓ} : {A : Type ℓ} → A → M A
pure a p = ok a p

abbrev pub return_err {ℓ} : {A : Type ℓ} → Error → M A
return_err e p = fail e p

abbrev pub throw_fault {ℓ} : {A : Type ℓ} → Fault → M A
throw_fault x p = panic x

abbrev pub gets {ℓ} : {A : Type ℓ} → (Process → A) → M A
gets f p = ok (f p) p

abbrev pub modify : (Process → Process) → M (Unit {0})
modify f p = ok tt (f p)

-- A Go call whose error is dropped.
abbrev pub ignore_err : M DataType → M (Unit {0})
ignore_err m p = elim (m p) [ ok a q ↦ ok tt q | fail e q ↦ ok tt q | panic x ↦ panic x ]

abbrev pub with_heap : Heap → M (Unit {0})
with_heap h = modify λ p. record p { heap = h }

-- NewProcess
unfoldable pub new_process : ℕ → StringMap → StringMap → List Ref → Function → Heap → Process
new_process depth natives globals constructors body heap = record {
  body = body;
  pc = 0;
  stack = replicate depth nil;
  sp = 0;
  locals = [];
  exception_ctx = [];
  exception = none;
  finally_rethrow = false;
  call_stack = [];
  cells = [];
  closure = [];
  natives = natives;
  globals = globals;
  constructors = constructors;
  heap = heap;
}

-- The doubling of push: copy into a list twice as long, whose new slots are nil.
abbrev pub grow : List DataType → List DataType
grow stack = stack ++ replicate (length stack) nil

-- prc.push(val). A stack of no slots does not grow, and the write panics.
unfoldable pub push : DataType → M (Unit {0})
push val p =
    let stack = if leb (length p.stack) p.sp then grow p.stack else p.stack in
    if leb (length stack) p.sp
    then panic index_out_of_range
    else ok tt (record p { stack = set stack p.sp val; sp = suc p.sp })

-- prc.peek()
unfoldable pub peek : M DataType
peek p = elim p.sp [ zero ↦ fail stack_underflow p | suc n ↦ ok (get_or p.stack n nil) p ]

-- prc.pop()
unfoldable pub pop : M DataType
pop p = elim p.sp [
  | zero ↦ fail stack_underflow p
  | suc n ↦ ok (get_or p.stack n nil) (record p { sp = n })
]

-- prc.GetGlobal(name): the globals of the script before the natives.
unfoldable pub get_global : Process → Bytes → DataType
get_global p name = elim (lookup p.globals name) [
  | some v ↦ v
  | none ↦ elim (lookup p.natives name) [ some v ↦ v | none ↦ undefined ]
]

-- prc.SetGlobal(name, val)
unfoldable pub set_global : Bytes → DataType → M (Unit {0})
set_global name val = modify λ p. record p { globals = insert p.globals name val }

-- prc.Throw(exception), also the body of the throw statement
unfoldable pub throw_value {ℓ} : {A : Type ℓ} → DataType → M A
throw_value val p = fail exception (record p { exception = some val })
