-- ===== src/Types/Equality/Laws.antt =====
-- StrictEquals (types/util.go) as a relation.
use gescript.Base.{◌≡◌, Bool, true, false, arith, str_eq_comm, str_eq_refl, not}
use gescript.Float.{is_nan, of_word}
use gescript.Float.Laws.{eq_float_comm, eq_float_refl}
use gescript.Types.Value.{DataType, boolean, integer, number, string}
use gescript.Types.Equality.{strict_equals}

-- NaN, the one value that does not equal itself.
abbrev pub is_nan_value : DataType → Bool
is_nan_value (number f) = is_nan f
is_nan_value _ = false

-- `===` is symmetric.
pub strict_equals_comm : (a b : DataType) → strict_equals a b ≡ strict_equals b a
unfolding strict_equals
strict_equals_comm (integer a) (number b) = eq_float_comm (of_word a) b
strict_equals_comm (number a) (integer b) = eq_float_comm a (of_word b)
strict_equals_comm (number a) (number b) = eq_float_comm a b
strict_equals_comm (string a) (string b) = str_eq_comm a b
strict_equals_comm (boolean true) (boolean b) = ground arith
strict_equals_comm a b = ground arith

-- `===` finds every value equal to itself but NaN.
pub strict_equals_refl : (a : DataType) → strict_equals a a ≡ not (is_nan_value a)
unfolding strict_equals
strict_equals_refl (number f) = eq_float_refl f
strict_equals_refl (string s) = str_eq_refl s
strict_equals_refl a = ground arith
