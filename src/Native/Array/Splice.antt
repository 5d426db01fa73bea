-- ===== src/Native/Array/Splice.antt =====
-- What splice takes out of an array, by its start and its count.
use gescript.Base.{
  ℕ, ◌+◌, ◌-◌, ◌^◌, ◌≤◌, ◌<◌, ◌≡◌, ◌∙◌, ◌⊎◌, refl, ap, true, false, List, ◌∷◌, ◌++◌, ltb,
  if◌then◌else◌, length, take, drop, arith, inl, inr, length-take, length-drop,
}
use gescript.Word.{Word, is_neg, lt_word, add_word}
use gescript.Types.Value.{DataType, Ref}
use gescript.Types.Convert.{Strconv, to_int}
use gescript.Engine.Heap.{Heap, elements, set_elements}
use gescript.Native.Array.{return_new, from_start, at_most, delete_count, splice_at, array_splice}
use gescript.Native.Array.Parts.{three_parts}

-- The smaller number.
abbrev pub least : ℕ → ℕ → ℕ
least a b = if ltb a b then a else b

-- A place that a signed number gives: from the end if it is negative, and within the elements.
abbrev pub place : ℕ → Word → ℕ
place alen w = if ltb w (2 ^ 63) then least w alen else alen - (2 ^ 64 - w)

-- A signed number, or 0 if it is negative.
abbrev pub positive : Word → ℕ
positive w = if ltb w (2 ^ 63) then w else 0

pub at_most-place :
    (alen : ℕ) (w : Word)
    → alen < 2 ^ 62
    → w < 2 ^ 64
    → at_most alen (from_start alen w) ≡ place alen w
unfolding at_most from_start lt_word add_word
at_most-place alen w small word = ground arith

place-le : (alen : ℕ) (w : Word) → place alen w ≤ alen
place-le alen w = ground arith

delete_count-least :
    (alen start : ℕ) (wanted : Word)
    → alen < 2 ^ 62
    → start ≤ alen
    → (wanted < 2 ^ 62) ⊎ (is_neg wanted ≡ true)
    → delete_count alen start wanted ≡ least (positive wanted) (alen - start)
unfolding delete_count lt_word add_word
delete_count-least alen start wanted small h (inl w) = ground arith
delete_count-least alen start wanted small h (inr w) = ground arith

-- splice with a start that is a 64-bit number and a count that is negative or below 2 ^ 62, on
-- an array of less than 2 ^ 62 elements, replaces by the additions as many elements as the count
-- says, or as there are, none if it is negative, from the place that the start gives, counted
-- from the end if it is negative and within the array, and returns them as a new array.
pub array_splice-replaces :
    (c : Strconv) (h : Heap) (r : Ref) (start count : DataType) (additions : List DataType)
    → length (elements h r) < 2 ^ 62
    → to_int c start < 2 ^ 64
    → (to_int c count < 2 ^ 62) ⊎ (is_neg (to_int c count) ≡ true)
    → (before removed after : List DataType) × (elements h r ≡ before ++ (removed ++ after))
      × (length before ≡ place (length (elements h r)) (to_int c start))
      × (length removed
          ≡ least
              (positive (to_int c count))
              (length (elements h r) - place (length (elements h r)) (to_int c start)))
      × (array_splice c h r (start ∷ count ∷ additions)
          ≡ return_new (set_elements h r (before ++ additions ++ after)) removed)
unfolding array_splice splice_at
array_splice-replaces c h r start count additions small word few =
    let els = elements h r in
    let alen = length els in
    let at = at_most alen (from_start alen (to_int c start)) in
    let k = delete_count alen at (to_int c count) in
    let at_is = at_most-place alen (to_int c start) small word in
    let in_place = place-le alen (to_int c start) in
    let k_is = delete_count-least alen at (to_int c count) small (omega arith) few in
    let k_le : at + k ≤ alen = ground arith in
    let before_is : length (take at els) ≡ at = length-take at els ∙ omega arith in
    let fits : ltb alen (at + k) ≡ false = ground arith in
    let removed_is : length (take k (drop at els)) ≡ k =
      length-take k (drop at els) ∙ omega (arith, length-drop at els) in
    (
      take at els,
      take k (drop at els),
      drop (at + k) els,
      three_parts at k els,
      before_is ∙ at_is,
      removed_is ∙ k_is ∙ ap (λ n. least (positive (to_int c count)) (alen - n)) at_is,
      rw fits refl,
    )
