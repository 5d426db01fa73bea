-- ===== src/Tests/Arrays.antt =====
-- The methods of arrays at a concrete array.
use gescript.Base.{length, arith, ◌≡◌, ◌-◌, inl, refl, List, [], ◌∷◌, ◌++◌}
use gescript.Word.{minus_one, neg_word}
use gescript.Float.{of_word, to_word}
use gescript.Types.Convert.{to_int}
use gescript.Types.Value.{DataType, integer}
use gescript.Engine.Heap.{Heap, elements, set_elements}
use gescript.Native.Array.{
  returned, panics, return_new, array_splice, array_slice, array_push, array_pop, array_unshift,
  array_shift,
}
use gescript.Native.Array.Parts.{then_on, array_slice-panics, array_pop-push}
use gescript.Native.Array.Splice.{array_splice-replaces}
use gescript.Tests.Sample.{plain_strconv, no_heap}

abbrev three : List DataType
three = integer 7 ∷ integer 8 ∷ integer 9 ∷ []

abbrev a_heap : Heap
a_heap = record no_heap { arrays = three ∷ [] }

array_splice-replaces_example :
    (before removed after : List DataType) × (elements a_heap 0 ≡ before ++ (removed ++ after))
    × (length before ≡ 2)
    × (length removed ≡ 1)
    × (array_splice plain_strconv a_heap 0 (integer minus_one ∷ integer 4 ∷ integer 5 ∷ [])
        ≡ return_new (set_elements a_heap 0 (before ++ (integer 5 ∷ []) ++ after)) removed)
unfolding to_int of_word to_word neg_word
array_splice-replaces_example =
    array_splice-replaces plain_strconv a_heap 0 (integer minus_one) (integer 4) (integer 5 ∷ [])
      (omega arith) (omega arith) (inl (omega arith))

array_slice-panics_example :
    array_slice plain_strconv a_heap 0 (integer 0 ∷ integer (minus_one - 4) ∷ []) ≡ panics
unfolding to_int of_word to_word neg_word
array_slice-panics_example =
    array_slice-panics plain_strconv a_heap 0 (integer 0) (integer (minus_one - 4)) [] (omega arith)
      refl (omega arith)

array_pop-push_example :
    (then_on (array_push a_heap 0 (integer 5 ∷ [])) (λ after. array_pop after 0)
      ≡ returned (integer 5) a_heap)
    × (then_on (array_unshift a_heap 0 (integer 5 ∷ [])) (λ after. array_shift after 0)
        ≡ returned (integer 5) a_heap)
array_pop-push_example = array_pop-push a_heap 0 (integer 5) (omega arith)
