-- ===== src/Native/Array/Parts.antt =====
-- The parts of an array that its methods take and change.
use gescript.Base.{
  ℕ, zero, suc, ◌+◌, ◌^◌, ◌≤◌, ◌<◌, ◌≡◌, ◌∙◌, refl, sym, ap, true, false, none, List, [], ◌∷◌, ◌++◌,
  if◌then◌else◌, length, take, drop, set, get_or, arith, length-append,
}
use gescript.Word.{Word, is_neg, lt_word, add_word}
use gescript.Types.Value.{DataType, Ref, undefined}
use gescript.Types.Convert.{Strconv, to_int}
use gescript.Engine.Heap.{Heap, elements, set_elements}
use gescript.Native.Array.{
  Returned, returned, panics, from_start, from_end, at_most, array_pop, array_push, array_shift,
  array_unshift, slice_start, slice_end, slice_of, array_slice,
}

pub take-drop {ℓ} : {A : Type ℓ} (n : ℕ) (xs : List A) → take n xs ++ drop n xs ≡ xs
take-drop zero xs = refl
take-drop (suc n) [] = refl
take-drop (suc n) (x ∷ xs) = ap (λ ys. x ∷ ys) (take-drop n xs)

drop-nil {ℓ} : {A : Type ℓ} (n : ℕ) → drop {A = A} n [] ≡ []
drop-nil zero = refl
drop-nil (suc n) = refl

pub suc_add : (n m : ℕ) → suc (n + m) ≡ suc n + m
suc_add n m = omega arith

drop-drop {ℓ} : {A : Type ℓ} (n m : ℕ) (xs : List A) → drop m (drop n xs) ≡ drop (n + m) xs
drop-drop zero m xs = ap (λ k. drop k xs) (omega arith)
drop-drop (suc n) zero [] = sym (drop-nil (suc n + zero))
drop-drop (suc n) (suc m) [] = sym (drop-nil (suc n + suc m))
drop-drop (suc n) m (x ∷ xs) = drop-drop n m xs ∙ ap (λ k. drop k (x ∷ xs)) (suc_add n m)

-- A list in three parts.
pub three_parts {ℓ} :
    {A : Type ℓ} (n k : ℕ) (xs : List A) → xs ≡ take n xs ++ (take k (drop n xs) ++ drop (n + k) xs)
three_parts n k xs = sym (
    ap (λ ys. take n xs ++ ys)
      (ap (λ zs. take k (drop n xs) ++ zs) (sym (drop-drop n k xs)) ∙ take-drop k (drop n xs))
    ∙ take-drop n xs)

pub at_most-le : (alen : ℕ) (a : Word) → alen < 2 ^ 62 → is_neg a ≡ false → at_most alen a ≤ alen
unfolding at_most lt_word
at_most-le alen a small h = ground arith

pub from_start-is_neg : (alen : ℕ) (a : Word) → is_neg (from_start alen a) ≡ false
unfolding from_start
from_start-is_neg alen a = ground arith

at_most-is_neg :
    (alen : ℕ) (a : Word) → alen < 2 ^ 62 → is_neg a ≡ false → is_neg (at_most alen a) ≡ false
at_most-is_neg alen a small h = ground (arith, at_most-le alen a small h)

end_before :
    (alen : ℕ) (end : Word)
    → alen < 2 ^ 62
    → is_neg end ≡ true
    → alen + end < 2 ^ 64
    → (is_neg (at_most alen (from_end alen end)) ≡ true)
      × (at_most alen (from_end alen end) < 2 ^ 64)
unfolding at_most from_end lt_word add_word
end_before alen end small neg before = (ground arith, ground arith)

slice_of-negative :
    (els : List DataType) (start end : Word)
    → is_neg end ≡ true
    → end < 2 ^ 64
    → is_neg start ≡ false
    → slice_of els (if lt_word end start then end else start) end ≡ none
unfolding slice_of lt_word
slice_of-negative els start end neg bound pos = ground arith

-- On an array of less than 2 ^ 62 elements a slice whose end, counted from the end of the array, lies
-- before its start panics.
pub array_slice-panics :
    (c : Strconv) (h : Heap) (r : Ref) (start end : DataType) (rest : List DataType)
    → length (elements h r) < 2 ^ 62
    → is_neg (to_int c end) ≡ true
    → length (elements h r) + to_int c end < 2 ^ 64
    → array_slice c h r (start ∷ end ∷ rest) ≡ panics
unfolding array_slice slice_end slice_start
array_slice-panics c h r start end rest small neg before =
    let alen = length (elements h r) in
    let (neg_end, bound) = end_before alen (to_int c end) small neg before in
    let pos_start =
      at_most-is_neg alen (from_start alen (to_int c start)) small
        (from_start-is_neg alen (to_int c start)) in
    rw
      (
        slice_of-negative (elements h r) (at_most alen (from_start alen (to_int c start)))
            (at_most alen (from_end alen (to_int c end))) neg_end bound pos_start,
        array_slice,
      )
      refl

set-set {ℓ} : {A : Type ℓ} (xs : List A) (i : ℕ) (v w : A) → set (set xs i v) i w ≡ set xs i w
set-set [] i v w = refl
set-set (x ∷ xs) zero v w = refl
set-set (x ∷ xs) (suc i) v w = ap (λ ys. x ∷ ys) (set-set xs i v w)

set-get_or {ℓ} : {A : Type ℓ} (xs : List A) (i : ℕ) (d : A) → set xs i (get_or xs i d) ≡ xs
set-get_or [] i d = refl
set-get_or (x ∷ xs) zero d = refl
set-get_or (x ∷ xs) (suc i) d = ap (λ ys. x ∷ ys) (set-get_or xs i d)

get_or-set {ℓ} :
    {A : Type ℓ} (xs : List A) (i : ℕ) (v d : A) → i < length xs → get_or (set xs i v) i d ≡ v
get_or-set [] i v d h = absurd (omega arith)
get_or-set (x ∷ xs) zero v d h = refl
get_or-set (x ∷ xs) (suc i) v d h = get_or-set xs i v d (omega arith)

-- The next method on what the first leaves.
abbrev pub then_on : Returned → (Heap → Returned) → Returned
then_on (returned v h) next = next h
then_on panics next = panics

elements-set_elements :
    (h : Heap) (r : Ref) (els : List DataType)
    → r < length h.arrays
    → elements (set_elements h r els) r ≡ els
elements-set_elements h r els valid = get_or-set h.arrays r els [] valid

set_elements-restored :
    (h : Heap) (r : Ref) (els : List DataType)
    → set_elements (set_elements h r els) r (elements h r) ≡ h
set_elements-restored h r els =
    ap (λ (arrays : List (List DataType)). record h { arrays = arrays })
      (set-set h.arrays r els (elements h r) ∙ set-get_or h.arrays r [])

array_pop_lem :
    (h : Heap) (r : Ref) (n : ℕ)
    → length (elements h r) ≡ suc n
    → array_pop h r
      ≡ returned (get_or (elements h r) n undefined) (set_elements h r (take n (elements h r)))
unfolding array_pop
array_pop_lem h r n e = rw (e, array_pop) refl

get_or-last : (xs : List DataType) (v : DataType) → get_or (xs ++ v ∷ []) (length xs) undefined ≡ v
get_or-last [] v = refl
get_or-last (x ∷ xs) v = get_or-last xs v

take-append_last : (xs : List DataType) (v : DataType) → take (length xs) (xs ++ v ∷ []) ≡ xs
take-append_last [] v = refl
take-append_last (x ∷ xs) v = ap (λ ys. x ∷ ys) (take-append_last xs v)

array_pop-last :
    (h : Heap) (r : Ref) (xs : List DataType) (v : DataType)
    → elements h r ≡ xs ++ v ∷ []
    → array_pop h r ≡ returned v (set_elements h r xs)
array_pop-last h r xs v e =
    array_pop_lem h r (length xs) (omega (arith, ap length e, length-append xs (v ∷ [])))
    ∙ ap
        (λ els.
          returned (get_or els (length xs) undefined) (set_elements h r (take (length xs) els)))
        e
    ∙ rw (get_or-last xs v, take-append_last xs v) refl

array_shift-first :
    (h : Heap) (r : Ref) (v : DataType) (xs : List DataType)
    → elements h r ≡ v ∷ xs
    → array_shift h r ≡ returned v (set_elements h r xs)
unfolding array_shift
array_shift-first h r v xs e = rw (e, array_shift) refl

-- On an array of the heap a push and a pop give the value back and leave the heap as it was, and so
-- do an unshift and a shift.
pub array_pop-push :
    (h : Heap) (r : Ref) (v : DataType)
    → r < length h.arrays
    → (then_on (array_push h r (v ∷ [])) (λ after. array_pop after r) ≡ returned v h)
      × (then_on (array_unshift h r (v ∷ [])) (λ after. array_shift after r) ≡ returned v h)
unfolding array_push array_unshift
array_pop-push h r v valid =
    let pushed = elements h r ++ v ∷ [] in
    let shifted = v ∷ elements h r in
    (
      array_pop-last (set_elements h r pushed) r (elements h r) v
            (elements-set_elements h r pushed valid)
          ∙ ap (returned v) (set_elements-restored h r pushed),
      array_shift-first (set_elements h r shifted) r v (elements h r)
            (elements-set_elements h r shifted valid)
          ∙ ap (returned v) (set_elements-restored h r shifted),
    )
