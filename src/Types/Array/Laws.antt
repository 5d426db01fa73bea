-- ===== src/Types/Array/Laws.antt =====
-- Reads after writes, and the lengths that writes give.
use Prim.Native.Nat.{max}
use gescript.Base.{
  ℕ, zero, suc, ◌+◌, ◌-◌, ◌^◌, ◌<◌, ◌≤◌, ◌≡◌, ◌∙◌, refl, sym, ap, false, some, List, [], ◌∷◌, ◌++◌,
  arith, ◌==◌, if◌then◌else◌, length, get_or, set, replicate, length-append, length-replicate,
  length-set,
}
use gescript.Word.{Word, is_neg}
use gescript.Types.Value.{DataType, undefined}
use gescript.Types.Array.{get, extend, set_at}

-- `length` of the array that Set leaves.
length-extend : (xs : List DataType) (i : ℕ) → length (extend xs i) ≡ max (length xs) (i + 1)
unfolding extend
length-extend xs i = omega (
  arith,
  length-append xs (replicate (i + 1 - length xs) undefined),
  length-replicate (i + 1 - length xs) undefined,
)

get_or-set :
    (xs : List DataType) (i j : ℕ) (v d : DataType)
    → i < length xs
    → get_or (set xs i v) j d ≡ (if i == j then v else get_or xs j d)
get_or-set [] i j v d h = absurd (omega arith)
get_or-set (x ∷ xs) zero zero v d h = refl
get_or-set (x ∷ xs) zero (suc j) v d h = ground arith
get_or-set (x ∷ xs) (suc i) zero v d h = ground arith
get_or-set (x ∷ xs) (suc i) (suc j) v d h = ground (arith, get_or-set xs i j v d)

get_or-replicate : (n j : ℕ) (d : DataType) → get_or (replicate n d) j d ≡ d
get_or-replicate zero j d = refl
get_or-replicate (suc n) zero d = refl
get_or-replicate (suc n) (suc j) d = get_or-replicate n j d

-- What the appended elements are, nobody can tell from what is beyond the end.
get_or-append_replicate :
    (xs : List DataType) (n j : ℕ) (d : DataType) → get_or (xs ++ replicate n d) j d ≡ get_or xs j d
get_or-append_replicate [] n j d = get_or-replicate n j d
get_or-append_replicate (x ∷ xs) n zero d = refl
get_or-append_replicate (x ∷ xs) n (suc j) d = get_or-append_replicate xs n j d

get_or_of_ge : (xs : List DataType) (j : ℕ) (d : DataType) → length xs ≤ j → get_or xs j d ≡ d
get_or_of_ge [] j d h = refl
get_or_of_ge (x ∷ xs) zero d h = absurd (omega arith)
get_or_of_ge (x ∷ xs) (suc j) d h = get_or_of_ge xs j d (omega arith)

-- Get has one reading for all indices that are not negative: undefined past the end.
get-eq-get_or : (xs : List DataType) (j : Word) → j < 2 ^ 63 → get xs j ≡ get_or xs j undefined
unfolding get
get-eq-get_or xs j h = ground (arith, get_or_of_ge xs j undefined)

get_or-extend :
    (xs : List DataType) (i j : ℕ) → get_or (extend xs i) j undefined ≡ get_or xs j undefined
unfolding extend
get_or-extend xs i j = get_or-append_replicate xs (i + 1 - length xs) j undefined

small_not_neg : (i : Word) → i < 2 ^ 63 → is_neg i ≡ false
small_not_neg i h = ground arith

-- After a write at `i` the element at `i` is the new one and any other is as before; the array is
-- as long as it was, or just long enough for `i`.
pub get-set_at :
    (xs : List DataType) (i j : Word) (v : DataType)
    → i < 2 ^ 63
    → j < 2 ^ 63
    → (ys : List DataType) × (set_at xs i v ≡ some ys)
      × (get ys j ≡ (if i == j then v else get xs j))
      × (length ys ≡ max (length xs) (i + 1))
unfolding set_at
get-set_at xs i j v h k = (
  set (extend xs i) i v,
  rw (small_not_neg i h),
  get-eq-get_or (set (extend xs i) i v) j k
      ∙ get_or-set (extend xs i) i j v undefined (omega (arith, length-extend xs i))
      ∙ ap (λ e. if i == j then v else e) (get_or-extend xs i j ∙ sym (get-eq-get_or xs j k)),
  omega (arith, length-set (extend xs i) i v, length-extend xs i),
)
