-- ===== src/Engine/Ops/ForLoop.antt =====
-- The iterators of the for-in and for-of loops. An iterator is two values on the stack: what is
-- iterated over, and the next index on top.
use gescript.Base.{
  ℕ, zero, suc, Bool, false, ◌||◌, List, [], ◌∷◌, map, Bytes, ltb, if◌then◌else◌, length, get_or,
}
use gescript.Word.{Word, is_neg, add_word}
use gescript.Decimal.{format_int}
use gescript.Types.Value.{DataType, nil, boolean, integer, string, array, object}
use gescript.Types.Object
use gescript.Engine.Heap.{Heap, elements, properties}
use gescript.Engine.Process.{
  M, index_out_of_range, pure, gets, throw_fault, ignore_err, ◌>>=◌, ◌>>◌, push, pop, peek,
}
use gescript.Engine.Host.{Host}
use gescript.Engine.Ops.Literal.{push_new_array}
use gescript.Engine.Ops.Exception.{write_local}

-- The indices of an array from `i` on, as texts.
unfoldable pub index_names : ℕ → ℕ → List Bytes
index_names zero i = []
index_names (suc n) i = format_int i ∷ index_names n (suc i)

unfoldable pub keys_of : Host → DataType → Heap → List Bytes
keys_of host (object r) h = host.range_order (Object.keys (properties h r))
keys_of host (array r) h = index_names (length (elements h r)) 0
keys_of host _ h = []

unfoldable pub for_in_keys_operation : Host → M (Unit {0})
for_in_keys_operation host = do
  obj ← pop
  keys ← gets λ p. keys_of host obj p.heap
  push_new_array (map string keys)
  push (integer 0)

unfoldable pub index_value : DataType → Word
index_value (integer i) = i
index_value _ = 0

-- idx < len(…), where idx has a sign
abbrev pub below : Word → ℕ → Bool
below i n = is_neg i || ltb i n

unfoldable pub for_in_more : DataType → Heap → Word → Bool
for_in_more (array r) h i = below i (length (elements h r))
for_in_more _ h i = false

unfoldable pub for_in_has_more_operation : M (Unit {0})
for_in_has_more_operation = do
  index ← pop
  keys ← peek
  more ← gets λ p. for_in_more keys p.heap (index_value index)
  push index
  push (boolean more)

-- Store the element in the variable, if there is one.
unfoldable pub bind_element : Word → List DataType → Word → M (Unit {0})
bind_element slot els i =
    if below i (length els)
    then (if is_neg i then throw_fault index_out_of_range else write_local slot (get_or els i nil))
    else pure tt

unfoldable pub for_in_advance : Word → DataType → DataType → M (Unit {0})
for_in_advance slot (array r) index = do
  els ← gets λ p. elements p.heap r
  bind_element slot els (index_value index)
  push (integer (add_word (index_value index) 1))
for_in_advance slot _ index = push index

unfoldable pub for_in_next_operation : Word → M (Unit {0})
for_in_next_operation slot = do index ← pop; keys ← peek; for_in_advance slot keys index

unfoldable pub for_in_cleanup_operation : M (Unit {0})
for_in_cleanup_operation = do ignore_err pop; ignore_err pop

unfoldable pub for_of_iterator_operation : M (Unit {0})
for_of_iterator_operation = push (integer 0)

unfoldable pub for_of_more : DataType → Heap → Word → Bool
for_of_more (array r) h i = below i (length (elements h r))
for_of_more (string s) h i = below i (length s)
for_of_more _ h i = false

unfoldable pub for_of_has_more_operation : M (Unit {0})
for_of_has_more_operation = do
  index ← pop
  iterable ← peek
  push index
  more ← gets λ p. for_of_more iterable p.heap (index_value index)
  push (boolean more)

-- The elements that a for-of loop runs through: a string is taken byte by byte.
unfoldable pub iterated : DataType → Heap → List DataType
iterated (array r) h = elements h r
iterated (string s) h = map (λ b. string (b ∷ [])) s
iterated _ h = []

unfoldable pub for_of_next_operation : Word → M (Unit {0})
for_of_next_operation slot = do
  index ← pop
  iterable ← peek
  els ← gets λ p. iterated iterable p.heap
  bind_element slot els (index_value index)
  push (integer (add_word (index_value index) 1))

unfoldable pub for_of_cleanup_operation : M (Unit {0})
for_of_cleanup_operation = do ignore_err pop; ignore_err pop
