-- ===== src/Engine/Ops/Compare.antt =====
-- LessThanOperation to StrictNotEqualOperation. Each comparison of the source has its own switch
-- over the types, and so it has here.
pub mod Order
pub mod Equality
use gescript.Base.{Bool, true, false, not, ◌||◌, ◌==◌, str_eq, str_lt}
use gescript.Word.{lt_word}
use gescript.Float.{eq_float, lt_float, le_float, of_word}
use gescript.Types.Value.{DataType, undefined, null, boolean, integer, number, string}
use gescript.Types.Equality.{strict_equals, bool_eq}
use gescript.Engine.Process.{M}
use gescript.Engine.Ops.Shape.{binary}

unfoldable pub less_than : DataType → DataType → Bool
less_than (integer a) (integer b) = lt_word a b
less_than (integer a) (number b) = lt_float (of_word a) b
less_than (number a) (integer b) = lt_float a (of_word b)
less_than (number a) (number b) = lt_float a b
less_than (string a) (string b) = str_lt a b
less_than _ _ = false

unfoldable pub greater_than : DataType → DataType → Bool
greater_than (integer a) (integer b) = lt_word b a
greater_than (integer a) (number b) = lt_float b (of_word a)
greater_than (number a) (integer b) = lt_float (of_word b) a
greater_than (number a) (number b) = lt_float b a
greater_than (string a) (string b) = str_lt b a
greater_than _ _ = false

unfoldable pub less_than_equal : DataType → DataType → Bool
less_than_equal (integer a) (integer b) = lt_word a b || a == b
less_than_equal (integer a) (number b) = le_float (of_word a) b
less_than_equal (number a) (integer b) = le_float a (of_word b)
less_than_equal (number a) (number b) = le_float a b
less_than_equal (string a) (string b) = str_lt a b || str_eq a b
less_than_equal _ _ = false

unfoldable pub greater_than_equal : DataType → DataType → Bool
greater_than_equal (integer a) (integer b) = lt_word b a || b == a
greater_than_equal (integer a) (number b) = le_float b (of_word a)
greater_than_equal (number a) (integer b) = le_float (of_word b) a
greater_than_equal (number a) (number b) = le_float b a
greater_than_equal (string a) (string b) = str_lt b a || str_eq b a
greater_than_equal _ _ = false

-- The coercing equality of the source: undefined and null are equal, and otherwise only numbers
-- of different types are compared.
unfoldable pub loose_equal : DataType → DataType → Bool
loose_equal undefined undefined = true
loose_equal undefined null = true
loose_equal null undefined = true
loose_equal null null = true
loose_equal (boolean a) (boolean b) = bool_eq a b
loose_equal (integer a) (integer b) = a == b
loose_equal (integer a) (number b) = eq_float (of_word a) b
loose_equal (number a) (integer b) = eq_float a (of_word b)
loose_equal (number a) (number b) = eq_float a b
loose_equal (string a) (string b) = str_eq a b
loose_equal _ _ = false

unfoldable pub loose_not_equal : DataType → DataType → Bool
loose_not_equal undefined undefined = false
loose_not_equal undefined null = false
loose_not_equal null undefined = false
loose_not_equal null null = false
loose_not_equal (boolean a) (boolean b) = not (bool_eq a b)
loose_not_equal (integer a) (integer b) = not (a == b)
loose_not_equal (integer a) (number b) = not (eq_float (of_word a) b)
loose_not_equal (number a) (integer b) = not (eq_float a (of_word b))
loose_not_equal (number a) (number b) = not (eq_float a b)
loose_not_equal (string a) (string b) = not (str_eq a b)
loose_not_equal _ _ = true

abbrev compare_by : (DataType → DataType → Bool) → M (Unit {0})
compare_by f = binary λ left right. boolean (f left right)

unfoldable pub less_than_operation : M (Unit {0})
less_than_operation = compare_by less_than

unfoldable pub greater_than_operation : M (Unit {0})
greater_than_operation = compare_by greater_than

unfoldable pub less_than_equal_operation : M (Unit {0})
less_than_equal_operation = compare_by less_than_equal

unfoldable pub greater_than_equal_operation : M (Unit {0})
greater_than_equal_operation = compare_by greater_than_equal

unfoldable pub equal_operation : M (Unit {0})
equal_operation = compare_by loose_equal

unfoldable pub not_equal_operation : M (Unit {0})
not_equal_operation = compare_by loose_not_equal

unfoldable pub strict_equal_operation : M (Unit {0})
strict_equal_operation = compare_by strict_equals

unfoldable pub strict_not_equal_operation : M (Unit {0})
strict_not_equal_operation = compare_by λ left right. not (strict_equals left right)
