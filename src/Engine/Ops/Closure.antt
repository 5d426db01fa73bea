-- ===== src/Engine/Ops/Closure.antt =====
-- Function values with captured variables, and the captured variables in them.
pub mod Sharing
use gescript.Base.{
  ℕ, suc, ◌+◌, ◌-◌, ◌^◌, ◌&&◌, not, Bool, true, false, ◌||◌, ◌≡◌, Option, none, some, List, [], ◌∷◌,
  ◌++◌, leb, if◌then◌else◌, length, get_or, get_elem?, set, replicate,
}
use gescript.Word.{Word, is_neg}
use gescript.Types.Value.{DataType, undefined, script_function, Ref}
use gescript.Engine.Code.{CaptureInfo, ScriptFunction}
use gescript.Engine.Heap.{Heap, Cell, holds, shares_undefined, empty, alloc_cell, alloc_function}
use gescript.Engine.Process.{
  M, Process, Outcome, ok, panic, index_out_of_range, nil_dereference, pure, gets, modify,
  throw_fault, ◌>>=◌, ◌>>◌, push, pop, peek,
}
use gescript.Engine.Ops.Variable.{local_cell, write_cell}

abbrev pub is_empty {ℓ} : {A : Type ℓ} → List A → Bool
is_empty [] = true
is_empty (x ∷ xs) = false

-- idx >= len(…), where idx has a sign
abbrev pub past_end : Word → ℕ → Bool
past_end i n = not (is_neg i) && leb n i

unfoldable pub new_cell : Cell → M Ref
new_cell c = do
  r ← gets λ p. length p.heap.cells
  modify λ p. record p { heap = alloc_cell p.heap c }
  pure r

-- A variable that the enclosing function has captured itself.
unfoldable pub capture_from_closure : Word → M (Option Ref)
capture_from_closure slot p =
    if is_empty p.closure || past_end slot (length p.closure)
    then (do r ← new_cell shares_undefined; pure (some r)) p
    else if is_neg slot
    then panic index_out_of_range
    else ok (get_or p.closure slot none) p

-- The cells of the locals, with room for the slot.
unfoldable pub pad_cells : ℕ → ℕ → List (Option Ref) → List (Option Ref)
pad_cells locals slot cells =
    let start = if is_empty cells then replicate locals none else cells in
    start ++ replicate (slot + 1 - length start) none

-- A local of the enclosing function: its cell, which is made at the first capture.
unfoldable pub capture_from_locals : Word → M (Option Ref)
capture_from_locals slot p =
    if is_neg slot
    then panic index_out_of_range
    else (let cells = pad_cells (length p.locals) slot p.cells in
        elim (get_or cells slot none) [
          | some r ↦ ok (some r) (record p { cells = cells })
          | none ↦
              (do
                r ← new_cell (holds (get_or p.locals slot undefined))
                modify λ q. record q { cells = set cells slot (some r) }
                pure (some r))
                p
        ])

unfoldable pub capture : CaptureInfo → M (Option Ref)
capture c =
    if c.is_capture then capture_from_closure c.slot_index else capture_from_locals c.slot_index

-- The loop over the captures.
unfoldable pub capture_all : List CaptureInfo → M (List (Option Ref))
capture_all [] = pure []
capture_all (c ∷ cs) = capture c >>= λ r. capture_all cs >>= λ rs. pure (r ∷ rs)

-- A copy of the template with its captured variables.
unfoldable pub instantiate : ScriptFunction → M (Unit {0})
instantiate sfn = do
  closure ← capture_all sfn.captures
  r ← gets λ p. length p.heap.functions
  modify λ p. record p { heap = alloc_function p.heap (record sfn { closure = closure }) }
  push (script_function r)

unfoldable pub push_template : Ref → M (Unit {0})
push_template r p = elim (get_elem? p.heap.functions r) [
  | none ↦ panic nil_dereference
  | some sfn ↦ (if is_empty sfn.captures then push (script_function r) else instantiate sfn) p
]

unfoldable pub push_function_operation : DataType → M (Unit {0})
push_function_operation (script_function r) = push_template r
push_function_operation v = push v

-- The value of a cell, undefined where there is none.
unfoldable pub cell_value : Heap → Option Ref → DataType
cell_value h none = undefined
cell_value h (some r) = elim (get_or h.cells r empty) [ holds v ↦ v | _ ↦ undefined ]

unfoldable pub load_capture_operation : Word → M (Unit {0})
load_capture_operation idx p =
    if is_empty p.closure || past_end idx (length p.closure)
    then push undefined p
    else if is_neg idx
    then panic index_out_of_range
    else push (cell_value p.heap (get_or p.closure idx none)) p

-- A missing cell is made without a value, and the write through it is a nil dereference.
unfoldable pub store_capture : Word → DataType → M (Unit {0})
store_capture idx val p =
    if is_empty p.closure || past_end idx (length p.closure)
    then ok tt p
    else if is_neg idx
    then panic index_out_of_range
    else elim (get_or p.closure idx none) [
      | none ↦ panic nil_dereference
      | some r ↦ write_cell r val p
    ]

unfoldable pub store_capture_operation : Word → M (Unit {0})
store_capture_operation idx = do val ← pop; store_capture idx val

unfoldable pub store_capture_keep_operation : Word → M (Unit {0})
store_capture_keep_operation idx = do val ← peek; store_capture idx val
