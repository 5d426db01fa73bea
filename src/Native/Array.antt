-- ===== src/Native/Array.antt =====
-- The methods of arrays without callbacks (internal/native/array.go). A method has the reference of
-- its array, args[0], and the further arguments, args[1:].
pub mod Parts
pub mod Splice
pub mod Search
pub mod Fill
use gescript.Base.{
  ℕ, zero, suc, ◌+◌, ◌-◌, Bool, true, false, Option, none, some, List, [], ◌∷◌, ◌++◌, ltb,
  if◌then◌else◌, length, take, drop, set, get_or, reverse,
}
use gescript.Word.{Word, minus_one, is_neg, lt_word, add_word}
use gescript.Types.Value.{DataType, Ref, undefined, boolean, integer, array}
use gescript.Types.Convert.{Strconv, to_int}
use gescript.Types.Equality.{strict_equals}
use gescript.Engine.Heap.{Heap, elements, set_elements, new_array_ref, alloc_array}

-- What a method comes to: a value, or the panic of an index or a slice out of range.
pub data Returned : Type 0 where
  returned : DataType → Heap → Returned
  panics : Returned

abbrev pub return_new : Heap → List DataType → Returned
return_new h els = returned (array (new_array_ref h)) (alloc_array h els)

-- The elements that concat appends for its arguments.
unfoldable pub concat_args : Heap → List DataType → List DataType
concat_args h [] = []
concat_args h (array r ∷ args) = elements h r ++ concat_args h args
concat_args h (arg ∷ args) = arg ∷ concat_args h args

unfoldable pub array_concat : Heap → Ref → List DataType → Returned
array_concat h r args = return_new h (elements h r ++ concat_args h args)

-- `start` where it counts from the end, at 0 at least.
unfoldable pub from_start : ℕ → Word → Word
from_start alen start =
    let back = add_word alen start in
    if is_neg start then (if is_neg back then 0 else back) else start

-- `end` where it counts from the end; it may stay negative.
unfoldable pub from_end : ℕ → Word → Word
from_end alen end = if is_neg end then add_word alen end else end

-- if a > alen { a = alen }
unfoldable pub at_most : ℕ → Word → Word
at_most alen a = if lt_word alen a then alen else a

unfoldable pub fill_start : Strconv → ℕ → List DataType → Word
fill_start c alen [] = 0
fill_start c alen (start ∷ rest) = from_start alen (to_int c start)

unfoldable pub fill_end : Strconv → ℕ → List DataType → Word
fill_end c alen (start ∷ end ∷ rest) = at_most alen (from_end alen (to_int c end))
fill_end c alen _ = alen

-- The loop, of that many rounds from `idx` on; `none` is the panic of an index out of range.
unfoldable pub fill_loop : ℕ → ℕ → DataType → List DataType → Option (List DataType)
fill_loop zero idx val els = some els
fill_loop (suc n) idx val els =
    let rest = fill_loop n (suc idx) val (set els idx val) in
    if ltb idx (length els) then rest else none

-- How many rounds there are from `start` to `end`.
unfoldable pub rounds : Word → Word → ℕ
rounds start end = if lt_word start end then end - start else 0

unfoldable pub array_fill : Strconv → Heap → Ref → List DataType → Returned
array_fill c h r [] = returned (array r) h
array_fill c h r (val ∷ args) =
    let els = elements h r in
    let start = fill_start c (length els) args in
    let end = fill_end c (length els) args in
    elim (fill_loop (rounds start end) start val els) [
      | none ↦ panics
      | some filled ↦ returned (array r) (set_elements h r filled)
    ]

-- flatten(res, elements, depth): what it appends to res.
unfoldable pub flatten : Heap → ℕ → List DataType → List DataType
flatten h depth [] = []
flatten h (suc depth) (array r ∷ els) = flatten h depth (elements h r) ++ flatten h (suc depth) els
flatten h depth (el ∷ els) = el ∷ flatten h depth els

unfoldable pub flat_depth : Strconv → List DataType → ℕ
flat_depth c [] = 1
flat_depth c (v ∷ rest) = let depth = to_int c v in if is_neg depth then 0 else depth

unfoldable pub array_flat : Strconv → Heap → Ref → List DataType → Returned
array_flat c h r args = return_new h (flatten h (flat_depth c args) (elements h r))

-- The loop of a search, at the place `idx` with what is left of the elements.
unfoldable pub search : ℕ → DataType → List DataType → Option ℕ
search idx val [] = none
search idx val (el ∷ els) =
    let further = search (suc idx) val els in if strict_equals el val then some idx else further

unfoldable pub search_start : Strconv → ℕ → List DataType → Word
search_start c alen [] = 0
search_start c alen (start ∷ rest) = from_start alen (to_int c start)

unfoldable pub array_search : Strconv → Heap → Ref → DataType → List DataType → Option ℕ
array_search c h r val args =
    let els = elements h r in
    let start = search_start c (length els) args in search start val (drop start els)

unfoldable pub array_includes : Strconv → Heap → Ref → List DataType → Returned
array_includes c h r [] = returned (boolean false) h
array_includes c h r (val ∷ args) =
    returned (boolean (elim (array_search c h r val args) [ none ↦ false | some i ↦ true ])) h

unfoldable pub array_index_of : Strconv → Heap → Ref → List DataType → Returned
array_index_of c h r [] = returned (integer minus_one) h
array_index_of c h r (val ∷ args) =
    returned (integer (elim (array_search c h r val args) [ none ↦ minus_one | some i ↦ i ])) h

-- arr.Elements[alen-1] and arr.Elements[:alen-1]
unfoldable pub array_pop : Heap → Ref → Returned
array_pop h r =
    let els = elements h r in
    let alen = length els in
    elim alen [
      | zero ↦ returned undefined h
      | suc n ↦ returned (get_or els n undefined) (set_elements h r (take n els))
    ]

unfoldable pub array_push : Heap → Ref → List DataType → Returned
array_push h r args =
    let els = elements h r ++ args in returned (integer (length els)) (set_elements h r els)

unfoldable pub array_shift : Heap → Ref → Returned
array_shift h r = elim (elements h r) [
  | [] ↦ returned undefined h
  | first ∷ rest ↦ returned first (set_elements h r rest)
]

unfoldable pub array_unshift : Heap → Ref → List DataType → Returned
array_unshift h r args =
    let els = args ++ elements h r in returned (integer (length els)) (set_elements h r els)

unfoldable pub slice_start : Strconv → ℕ → List DataType → Word
slice_start c alen [] = 0
slice_start c alen (start ∷ rest) = at_most alen (from_start alen (to_int c start))

unfoldable pub slice_end : Strconv → ℕ → List DataType → Word
slice_end c alen (start ∷ end ∷ rest) = at_most alen (from_end alen (to_int c end))
slice_end c alen _ = alen

-- arr.Elements[start:end], which panics unless 0 <= start; both are at most the length here.
unfoldable pub slice_of : List DataType → Word → Word → Option (List DataType)
slice_of els start end = if is_neg start then none else some (take (end - start) (drop start els))

unfoldable pub array_slice : Strconv → Heap → Ref → List DataType → Returned
array_slice c h r args =
    let els = elements h r in
    let end = slice_end c (length els) args in
    let start = slice_start c (length els) args in
    elim (slice_of els (if lt_word end start then end else start) end) [
      | none ↦ panics
      | some part ↦ return_new h part
    ]

-- The number of elements that splice removes.
unfoldable pub delete_count : ℕ → Word → Word → Word
delete_count alen start wanted =
    let count = if is_neg wanted then 0 else wanted in
    if lt_word alen (add_word start count) then alen - start else count

-- The elements are replaced, and those removed are a new array; a slice of them that ends behind
-- their end panics.
unfoldable pub splice_at : Heap → Ref → Word → Word → List DataType → Returned
splice_at h r start count additions =
    let els = elements h r in
    if ltb (length els) (start + count)
    then panics
    else return_new (set_elements h r (take start els ++ additions ++ drop (start + count) els))
        (take count (drop start els))

-- Of a single argument the slice args[3:] is out of range.
unfoldable pub array_splice : Strconv → Heap → Ref → List DataType → Returned
array_splice c h r [] = return_new h []
array_splice c h r (_ ∷ []) = panics
array_splice c h r (start ∷ count ∷ additions) =
    let alen = length (elements h r) in
    let at = at_most alen (from_start alen (to_int c start)) in
    splice_at h r at (delete_count alen at (to_int c count)) additions

-- Array.isArray
unfoldable pub array_is_array : List DataType → DataType
array_is_array (array r ∷ args) = boolean true
array_is_array _ = boolean false
