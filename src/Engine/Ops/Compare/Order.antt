-- ===== src/Engine/Ops/Compare/Order.antt =====
-- The four order comparisons against one another: each has its own switch in the source.
use gescript.Base.{◌≡◌, refl, Bool, true, false, ◌&&◌, ◌||◌, [], ◌∷◌, Bytes, arith, str_lt}
use gescript.Word.Laws.{lt_word_asymm}
use gescript.Float.{of_word}
use gescript.Float.Laws.{lt_float_asymm, le_float_split}
use gescript.Types.Value.{DataType, integer, number, string}
use gescript.Engine.Ops.Compare.{
  less_than, greater_than, less_than_equal, greater_than_equal, loose_equal,
}

-- `a > b` is `b < a`, and `a >= b` is `b <= a`, on all values.
pub greater_than-swap :
    (a b : DataType)
    → (greater_than a b ≡ less_than b a) × (greater_than_equal a b ≡ less_than_equal b a)
unfolding greater_than less_than greater_than_equal less_than_equal
greater_than-swap (integer a) (integer b) = (refl, refl)
greater_than-swap a b = ground arith

-- The values that have an order: both numbers, or both strings.
abbrev pub comparable : DataType → DataType → Bool
comparable (integer a) (integer b) = true
comparable (integer a) (number b) = true
comparable (number a) (integer b) = true
comparable (number a) (number b) = true
comparable (string a) (string b) = true
comparable _ _ = false

-- `a <= b` is `a < b` or, where the two have an order, `a == b`.
pub less_than_equal-split :
    (a b : DataType) → less_than_equal a b ≡ (less_than a b || (comparable a b && loose_equal a b))
unfolding less_than_equal less_than loose_equal
less_than_equal-split (integer a) (integer b) = refl
less_than_equal-split (integer a) (number b) = le_float_split (of_word a) b
less_than_equal-split (number a) (integer b) = le_float_split a (of_word b)
less_than_equal-split (number a) (number b) = le_float_split a b
less_than_equal-split a b = ground arith

str_lt_asymm : (s t : Bytes) → str_lt s t ≡ true → str_lt t s ≡ false
str_lt_asymm s [] h = ground arith
str_lt_asymm [] (c ∷ t) h = refl
str_lt_asymm (b ∷ s) (c ∷ t) h = ground (arith, str_lt_asymm s t)

-- `a < b` and `b < a` never hold together.
pub less_than_asymm : (a b : DataType) → less_than a b ≡ true → less_than b a ≡ false
unfolding less_than
less_than_asymm (integer a) (integer b) h = lt_word_asymm a b h
less_than_asymm (integer a) (number b) h = lt_float_asymm (of_word a) b h
less_than_asymm (number a) (integer b) h = lt_float_asymm a (of_word b) h
less_than_asymm (number a) (number b) h = lt_float_asymm a b h
less_than_asymm (string a) (string b) h = str_lt_asymm a b h
less_than_asymm a b h = ground arith
