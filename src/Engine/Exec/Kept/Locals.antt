-- ===== src/Engine/Exec/Kept/Locals.antt =====
-- The stack pointers of a process through the operations on values, locals and captured variables.
use gescript.Base.{
  ℕ, zero, suc, List, [], ◌∷◌, Bytes, Option, none, some, get_or, ◌||◌, length, if◌then◌else◌, set,
  get_elem?,
}
use gescript.Word.{Word, is_neg}
use gescript.Types.Value.{DataType, Ref, nil, undefined, script_function}
use gescript.Types.Convert.{Strconv, to_string, nesting}
use gescript.Engine.Code.{Count, plain, spread, CaptureInfo, ScriptFunction}
use gescript.Engine.Heap.{Cell, holds, shares_undefined, empty}
use gescript.Engine.Process.{
  Process, Outcome, M, ok, panic, push, ◌>>=◌, ◌>>◌, stack_overflow, index_out_of_range,
  nil_dereference, writes_undefined, pure, modify,
}
use gescript.Engine.Process.Fits.{
  FitsAfter, FitsAfter-if, FitsAfter-option, Keeps, Keeps-push, Keeps-bind, Keeps-if, keeps_rules,
}
use gescript.Engine.Ops.Shape.{binary, unary, text_of}
use gescript.Engine.Ops.Arithmetic.{addition_operation, concat}
use gescript.Engine.Ops.Literal.{pop_values, extract_values, push_new_array, pop_properties}
use gescript.Engine.Ops.Jump.{jump_to}
use gescript.Engine.Ops.Variable.{
  invalid_slot, local_cell, cell_at, read_cell, write_cell, load_slot, load_variable_operation,
  store_slot, store_variable, update_slot,
}
use gescript.Engine.Ops.Exception.{write_local}
use gescript.Engine.Ops.Closure.{
  new_cell, capture_from_closure, capture_from_locals, pad_cells, capture, capture_all, instantiate,
  push_template, push_function_operation, load_capture_operation, store_capture, is_empty, past_end,
  cell_value,
}

pub Keeps-binary : (f : DataType → DataType → DataType) → Keeps (binary f)
unfolding binary
Keeps-binary f = search keeps_rules

pub Keeps-unary : (f : DataType → DataType) → Keeps (unary f)
unfolding unary
Keeps-unary f = search keeps_rules

pub Keeps-text_of : (c : Strconv) (v : DataType) → Keeps (text_of c v)
unfolding text_of
Keeps-text_of c v = record {
  at = λ p h.
      FitsAfter-option (to_string c p.heap (nesting p.heap) v) (panic stack_overflow) (λ s. ok s p)
        tt λ s. h;
}

pub Keeps-pop_values : (n : ℕ) (acc : List DataType) → Keeps (pop_values n acc)
unfolding pop_values
Keeps-pop_values zero acc = search keeps_rules
Keeps-pop_values (suc n) acc = search (keeps_rules, Keeps-pop_values n)

pub Keeps-extract_values : (c : Count) → Keeps (extract_values c)
unfolding extract_values
Keeps-extract_values (plain n) = Keeps-pop_values n []
Keeps-extract_values (spread n mask) = search (keeps_rules, Keeps-pop_values)

pub Keeps-push_new_array : (els : List DataType) → Keeps (push_new_array els)
unfolding push_new_array
Keeps-push_new_array els = search keeps_rules

pub Keeps-pop_properties :
    (ks : List Bytes) (m : List (Bytes × DataType)) → Keeps (pop_properties ks m)
unfolding pop_properties
Keeps-pop_properties [] m = search keeps_rules
Keeps-pop_properties (k ∷ ks) m = search (keeps_rules, Keeps-pop_properties ks)

pub Keeps-jump_to : (t : Word) → Keeps (jump_to t)
unfolding jump_to
Keeps-jump_to t = search keeps_rules

FitsAfter-cell :
    {A : Type 0} (c : Cell) (f : DataType → Outcome A) (x y : Outcome A)
    → ((v : DataType) → FitsAfter (f v))
    → FitsAfter x
    → FitsAfter y
    → FitsAfter (elim c [ holds v ↦ f v | shares_undefined ↦ x | empty ↦ y ])
FitsAfter-cell (holds v) f x y hf hx hy = hf v
FitsAfter-cell shares_undefined f x y hf hx hy = hx
FitsAfter-cell empty f x y hf hx hy = hy

Keeps-read_cell : (r : Ref) → Keeps (read_cell r)
unfolding read_cell
Keeps-read_cell r = record {
  at = λ p h.
      FitsAfter-cell (cell_at p.heap r) (λ v. ok v p) (ok undefined p) (panic nil_dereference)
        (λ v. h) h tt;
}

pub Keeps-write_cell : (r : Ref) (v : DataType) → Keeps (write_cell r v)
unfolding write_cell
Keeps-write_cell r v = record {
  at = λ p h.
      FitsAfter-cell (cell_at p.heap r)
        (λ w. ok tt (record p { heap = record p.heap { cells = set p.heap.cells r (holds v) } }))
        (panic writes_undefined) (panic nil_dereference) (λ w. h) tt tt;
}

Keeps-load_slot : (c : Option Ref) (slot : Word) → Keeps (load_slot c slot)
unfolding load_slot
Keeps-load_slot (some r) slot = record {
  at = λ p h. (Keeps-bind (read_cell r) push (Keeps-read_cell r) Keeps-push).at p h;
}
Keeps-load_slot none slot = record { at = λ p h. (Keeps-push (get_or p.locals slot nil)).at p h }

pub Keeps-load_variable : (slot : Word) → Keeps (load_variable_operation slot)
unfolding load_variable_operation
Keeps-load_variable slot = record {
  at = λ p h.
      FitsAfter-if (invalid_slot p slot) (push undefined p) (load_slot (local_cell p slot) slot p)
        ((Keeps-push undefined).at p h) ((Keeps-load_slot (local_cell p slot) slot).at p h);
}

Keeps-store_slot : (c : Option Ref) (slot : Word) (v : DataType) → Keeps (store_slot c slot v)
unfolding store_slot
Keeps-store_slot (some r) slot v = record { at = λ p h. (Keeps-write_cell r v).at p h }
Keeps-store_slot none slot v = record { at = λ p h. h }

pub Keeps-store_variable : (slot : Word) (v : DataType) → Keeps (store_variable slot v)
unfolding store_variable
Keeps-store_variable slot v = record {
  at = λ p h.
      FitsAfter-if (invalid_slot p slot) (ok tt p) (store_slot (local_cell p slot) slot v p) h
        ((Keeps-store_slot (local_cell p slot) slot v).at p h);
}

pub Keeps-update_slot :
    (f : DataType → DataType) (shown : DataType → DataType → DataType) (slot : Word)
    → Keeps (update_slot f shown slot)
Keeps-update_slot f shown slot = record {
  at = λ p h.
      let old = get_or p.locals slot nil in
      let q : Process = record p { locals = set p.locals slot (f old) } in
      FitsAfter-if (invalid_slot p slot) (ok tt p) (push (shown old (f old)) q) h
        ((Keeps-push (shown old (f old))).at q h);
}

pub Keeps-write_local : (slot : Word) (v : DataType) → Keeps (write_local slot v)
unfolding write_local
Keeps-write_local slot v = record {
  at = λ p h.
      FitsAfter-if {A = Unit {0}} (invalid_slot p slot) (panic index_out_of_range) (ok tt _) tt h;
}

pub Keeps-new_cell : (c : Cell) → Keeps (new_cell c)
unfolding new_cell
Keeps-new_cell c = search keeps_rules

Keeps-capture_from_closure : (slot : Word) → Keeps (capture_from_closure slot)
unfolding capture_from_closure
Keeps-capture_from_closure slot = record {
  at = λ p h.
      let made : M (Option Ref) = (do r ← new_cell shares_undefined; pure (some r)) in
      let made-Keeps : Keeps made = search (keeps_rules, Keeps-new_cell) in
      FitsAfter-if (is_empty p.closure || past_end slot (length p.closure)) (made p) _
        (made-Keeps.at p h)
        (FitsAfter-if (is_neg slot) (panic index_out_of_range) (ok (get_or p.closure slot none) p)
          tt h);
}

Keeps-capture_from_locals : (slot : Word) → Keeps (capture_from_locals slot)
unfolding capture_from_locals
Keeps-capture_from_locals slot = record {
  at = λ p h.
      let cells = pad_cells (length p.locals) slot p.cells in
      let made : M (Option Ref) = (do
        r ← new_cell (holds (get_or p.locals slot undefined))
        modify λ q. record q { cells = set cells slot (some r) }
        pure (some r)) in
      let made-Keeps : Keeps made = search (keeps_rules, Keeps-new_cell) in
      FitsAfter-if (is_neg slot) (panic index_out_of_range) _ tt (
        FitsAfter-option (get_or cells slot none) (made p)
          (λ r. ok (some r) (record p { cells = cells })) (made-Keeps.at p h) λ r. h);
}

Keeps-capture : (c : CaptureInfo) → Keeps (capture c)
unfolding capture
Keeps-capture c = search (keeps_rules, Keeps-capture_from_closure, Keeps-capture_from_locals)

Keeps-capture_all : (cs : List CaptureInfo) → Keeps (capture_all cs)
unfolding capture_all
Keeps-capture_all [] = search keeps_rules
Keeps-capture_all (c ∷ cs) =
    Keeps-bind (capture c) (λ r. capture_all cs >>= λ rs. pure (r ∷ rs)) (Keeps-capture c)
      λ r.
        Keeps-bind (capture_all cs) (λ rs. pure (r ∷ rs)) (Keeps-capture_all cs)
          λ rs. search keeps_rules

Keeps-instantiate : (sfn : ScriptFunction) → Keeps (instantiate sfn)
unfolding instantiate
Keeps-instantiate sfn = search (keeps_rules, Keeps-capture_all)

Keeps-push_template : (r : Ref) → Keeps (push_template r)
unfolding push_template
Keeps-push_template r = record {
  at = λ p h.
      FitsAfter-option (get_elem? p.heap.functions r) (panic nil_dereference)
        (λ sfn. (if is_empty sfn.captures then push (script_function r) else instantiate sfn) p) tt
        λ sfn.
          (Keeps-if (is_empty sfn.captures) (push (script_function r)) (instantiate sfn)
              (Keeps-push (script_function r)) (Keeps-instantiate sfn)).at
            p h;
}

pub Keeps-push_function : (v : DataType) → Keeps (push_function_operation v)
unfolding push_function_operation
Keeps-push_function (script_function r) = Keeps-push_template r
Keeps-push_function v = Keeps-push v

pub Keeps-load_capture : (i : Word) → Keeps (load_capture_operation i)
unfolding load_capture_operation
Keeps-load_capture i = record {
  at = λ p h.
      FitsAfter-if (is_empty p.closure || past_end i (length p.closure)) (push undefined p) _
        ((Keeps-push undefined).at p h)
        (FitsAfter-if (is_neg i) (panic index_out_of_range)
          (push (cell_value p.heap (get_or p.closure i none)) p) tt
          ((Keeps-push (cell_value p.heap (get_or p.closure i none))).at p h));
}

pub Keeps-store_capture : (i : Word) (v : DataType) → Keeps (store_capture i v)
unfolding store_capture
Keeps-store_capture i v = record {
  at = λ p h. FitsAfter-if (is_empty p.closure || past_end i (length p.closure)) (ok tt p) _ h (
      FitsAfter-if (is_neg i) (panic index_out_of_range) _ tt (
        FitsAfter-option (get_or p.closure i none) (panic nil_dereference) (λ r. write_cell r v p)
          tt λ r. (Keeps-write_cell r v).at p h));
}

Keeps-concat : (c : Strconv) (left right : DataType) → Keeps (concat c left right)
unfolding concat
Keeps-concat c left right = search (keeps_rules, Keeps-text_of)

pub Keeps-addition : (c : Strconv) → Keeps (addition_operation c)
unfolding addition_operation
Keeps-addition c = search (keeps_rules, Keeps-concat) depth 10
