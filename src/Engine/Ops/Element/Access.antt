-- ===== src/Engine/Ops/Element/Access.antt =====
-- Reads and writes of elements: what a read finds after a write, where a write panics, and the
-- element that the key of a for-in loop leads to.
use gescript.Base.{◌≡◌, refl, true, List, ◌∷◌}
use gescript.Word.{Word, is_neg}
use gescript.Word.Laws.{IsWord}
use gescript.Decimal.{format_int}
use gescript.Decimal.RoundTrip.{atoi-format_int}
use gescript.Types.Value.{DataType, array, integer, Ref}
use gescript.Types.Array
use gescript.Engine.Process.{Process, panic, index_out_of_range}
use gescript.Engine.Process.Stack.{IsStack, values, pop-Leaves}
use gescript.Engine.Ops.Element.{
  index_by_name, write_element, store_element, index_or_zero, set_element_operation,
}

-- The key that a for-in loop gives for an index leads to the element at that index.
pub index_by_name-format_int :
    (els : List DataType) (i : Word) → IsWord i → index_by_name els (format_int i) ≡ Array.get els i
unfolding index_by_name
index_by_name-format_int els i h = rw (atoi-format_int i h, index_by_name)

write_element-negative :
    (r : Ref) (i : Word) (val : DataType) (p : Process)
    → is_neg i ≡ true
    → write_element r i val p ≡ panic index_out_of_range
unfolding write_element Array.set_at
write_element-negative r i val p n = rw (n, write_element)

-- An assignment to a negative index of an array panics: it is no exception that the script could
-- catch.
pub set_element-negative :
    (p : Process) (val : DataType) (i : Word) (r : Ref) (vs : List DataType)
    → IsStack p
    → values p ≡ val ∷ integer i ∷ array r ∷ vs
    → is_neg i ≡ true
    → set_element_operation p ≡ panic index_out_of_range
unfolding set_element_operation store_element index_or_zero
set_element-negative p val i r vs h e n =
    let l = pop-Leaves val (integer i ∷ array r ∷ vs) p h e in
    let m = pop-Leaves (integer i) (array r ∷ vs) l.after l.is_stack l.left in
    let k = pop-Leaves (array r) vs m.after m.is_stack m.left in
    rw (l.returned, m.returned, k.returned, write_element-negative r i val k.after n) refl
