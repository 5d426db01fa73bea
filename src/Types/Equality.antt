-- ===== src/Types/Equality.antt =====
-- StrictEquals of types/util.go and the coercing comparison of EqualOperation
-- (internal/engine/operations.go), on values. Pointers are equal if they are the same reference.
pub mod Laws
use gescript.Base.{Bool, true, false, not, ◌==◌, str_eq}
use gescript.Word.{lt_word}
use gescript.Float.{eq_float, lt_float, le_float, of_word}
use gescript.Types.Value.{
  DataType, nil, undefined, null, boolean, integer, number, string, array, object, script_function,
  native_function, native_method, native_constructor, bound_function,
}

abbrev pub bool_eq : Bool → Bool → Bool
bool_eq true b = b
bool_eq false b = not b

-- StrictEquals(val, cmp)
unfoldable pub strict_equals : DataType → DataType → Bool
strict_equals undefined undefined = true
strict_equals null null = true
strict_equals (boolean a) (boolean b) = bool_eq a b
strict_equals (integer a) (integer b) = a == b
strict_equals (integer a) (number b) = eq_float (of_word a) b
strict_equals (number a) (number b) = eq_float a b
strict_equals (number a) (integer b) = eq_float a (of_word b)
strict_equals (string a) (string b) = str_eq a b
strict_equals (array a) (array b) = a == b
strict_equals (object a) (object b) = a == b
strict_equals (script_function a) (script_function b) = a == b
strict_equals (native_function a) (native_function b) = a == b
strict_equals (native_method a) (native_method b) = a == b
strict_equals (native_constructor a) (native_constructor b) = a == b
strict_equals (bound_function a) (bound_function b) = a == b
strict_equals nil nil = true
strict_equals _ _ = false
