-- ===== src/Engine/Ops/Variable.antt =====
-- Local variables: load, store, and the increments and decrements of a slot.
use gescript.Base.{Bool, ◌||◌, Option, none, some, leb, if◌then◌else◌, length, get_or, set}
use gescript.Word.{Word, is_neg, add_word, sub_word}
use gescript.Float.{add_float, sub_float, of_word, nan}
use gescript.Types.Value.{DataType, nil, undefined, integer, number, Ref}
use gescript.Engine.Heap.{Heap, Cell, holds, shares_undefined, empty}
use gescript.Engine.Process.{
  M, Process, ok, panic, nil_dereference, writes_undefined, ◌>>=◌, push, pop, peek,
}

-- slotIndex < 0 || slotIndex >= len(prc.locals)
abbrev pub invalid_slot : Process → Word → Bool
invalid_slot p slot = is_neg slot || leb (length p.locals) slot

-- The cell of a captured local: prc.cells[slot], if there is one.
abbrev pub local_cell : Process → Word → Option Ref
local_cell p slot = get_or p.cells slot none

abbrev pub cell_at : Heap → Ref → Cell
cell_at h r = get_or h.cells r empty

-- *cell.Value
unfoldable pub read_cell : Ref → M DataType
read_cell r p = elim (cell_at p.heap r) [
  | holds v ↦ ok v p
  | shares_undefined ↦ ok undefined p
  | empty ↦ panic nil_dereference
]

-- *cell.Value = val
unfoldable pub write_cell : Ref → DataType → M (Unit {0})
write_cell r val p = elim (cell_at p.heap r) [
  | holds v ↦ ok tt (record p { heap = record p.heap { cells = set p.heap.cells r (holds val) } })
  | shares_undefined ↦ panic writes_undefined
  | empty ↦ panic nil_dereference
]

-- A captured local lives in its cell, any other in its slot.
unfoldable pub load_slot : Option Ref → Word → M (Unit {0})
load_slot (some r) slot p = (do v ← read_cell r; push v) p
load_slot none slot p = push (get_or p.locals slot nil) p

unfoldable pub load_variable_operation : Word → M (Unit {0})
load_variable_operation slot p =
    if invalid_slot p slot then push undefined p else load_slot (local_cell p slot) slot p

unfoldable pub store_slot : Option Ref → Word → DataType → M (Unit {0})
store_slot (some r) slot val p = write_cell r val p
store_slot none slot val p = ok tt (record p { locals = set p.locals slot val })

unfoldable pub store_variable : Word → DataType → M (Unit {0})
store_variable slot val p =
    if invalid_slot p slot then ok tt p else store_slot (local_cell p slot) slot val p

unfoldable pub store_variable_operation : Word → M (Unit {0})
store_variable_operation slot = do val ← pop; store_variable slot val

unfoldable pub store_variable_keep_operation : Word → M (Unit {0})
store_variable_keep_operation slot = do val ← peek; store_variable slot val

unfoldable pub increment_value : DataType → DataType
increment_value (integer a) = integer (add_word a 1)
increment_value (number a) = number (add_float a (of_word 1))
increment_value _ = number nan

unfoldable pub decrement_value : DataType → DataType
decrement_value (integer a) = integer (sub_word a 1)
decrement_value (number a) = number (sub_float a (of_word 1))
decrement_value _ = number nan

-- The slot itself is updated, and what is pushed is the value that `shown` picks of the old value
-- and the new one. A captured slot's cell is not looked at.
abbrev pub update_slot :
    (DataType → DataType) → (DataType → DataType → DataType) → Word → M (Unit {0})
update_slot f shown slot p =
    if invalid_slot p slot
    then ok tt p
    else (let old = get_or p.locals slot nil in
        push (shown old (f old)) (record p { locals = set p.locals slot (f old) }))

unfoldable pub pre_increment_operation : Word → M (Unit {0})
pre_increment_operation = update_slot increment_value (λ old new. new)

unfoldable pub pre_decrement_operation : Word → M (Unit {0})
pre_decrement_operation = update_slot decrement_value (λ old new. new)

unfoldable pub post_increment_operation : Word → M (Unit {0})
post_increment_operation = update_slot increment_value (λ old new. old)

unfoldable pub post_decrement_operation : Word → M (Unit {0})
post_decrement_operation = update_slot decrement_value (λ old new. old)
