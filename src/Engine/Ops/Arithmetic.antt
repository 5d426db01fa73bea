-- ===== src/Engine/Ops/Arithmetic.antt =====
-- AdditionOperation to ModulusOperation, and the unary signs.
use gescript.Base.{Bool, true, false, ◌||◌, ◌==◌, if◌then◌else◌, ◌++◌}
use gescript.Word.{minus_one, add_word, sub_word, mul_word, rem_word, neg_word}
use gescript.Float.{
  Float, add_float, sub_float, mul_float, div_float, mod_float, neg_float, of_word, is_zero,
}
use gescript.Types.Value.{DataType, undefined, boolean, integer, number, string}
use gescript.Types.Convert.{Strconv, to_number}
use gescript.Engine.Process.{M, ◌>>=◌, push, pop}
use gescript.Engine.Ops.Shape.{binary, unary, text_of}

abbrev is_string : DataType → Bool
is_string (string s) = true
is_string _ = false

-- The switch over the numeric types.
unfoldable pub add_values : DataType → DataType → DataType
add_values (integer a) (integer b) = integer (add_word a b)
add_values (integer a) (number b) = number (add_float (of_word a) b)
add_values (number a) (integer b) = number (add_float a (of_word b))
add_values (number a) (number b) = number (add_float a b)
add_values _ _ = undefined

unfoldable pub concat : Strconv → DataType → DataType → M (Unit {0})
concat c left right = do
  left_str ← text_of c left
  right_str ← text_of c right
  push (string (left_str ++ right_str))

-- If either operand is a string the result is one too.
unfoldable pub addition_operation : Strconv → M (Unit {0})
addition_operation c = do
  right ← pop
  left ← pop
  if is_string left || is_string right then concat c left right else push (add_values left right)

unfoldable pub sub_values : DataType → DataType → DataType
sub_values (integer a) (integer b) = integer (sub_word a b)
sub_values (integer a) (number b) = number (sub_float (of_word a) b)
sub_values (number a) (integer b) = number (sub_float a (of_word b))
sub_values (number a) (number b) = number (sub_float a b)
sub_values _ _ = undefined

unfoldable pub mul_values : DataType → DataType → DataType
mul_values (integer a) (integer b) = integer (mul_word a b)
mul_values (integer a) (number b) = number (mul_float (of_word a) b)
mul_values (number a) (integer b) = number (mul_float a (of_word b))
mul_values (number a) (number b) = number (mul_float a b)
mul_values _ _ = undefined

-- The operand of a division; what is no number counts as 0.
unfoldable pub div_operand : DataType → Float
div_operand (integer a) = of_word a
div_operand (number a) = a
div_operand _ = 0

unfoldable pub div_values : DataType → DataType → DataType
div_values left right = number (div_float (div_operand left) (div_operand right))

unfoldable pub mod_values : DataType → DataType → DataType
mod_values (integer a) (integer b) = if b == 0 then undefined else integer (rem_word a b)
mod_values (integer a) (number b) =
    if is_zero b then undefined else number (mod_float (of_word a) b)
mod_values (number a) (integer b) =
    if is_zero (of_word b) then undefined else number (mod_float a (of_word b))
mod_values (number a) (number b) = if is_zero b then undefined else number (mod_float a b)
mod_values _ _ = undefined

unfoldable pub subtraction_operation : M (Unit {0})
subtraction_operation = binary sub_values

unfoldable pub multiplication_operation : M (Unit {0})
multiplication_operation = binary mul_values

unfoldable pub division_operation : M (Unit {0})
division_operation = binary div_values

unfoldable pub modulus_operation : M (Unit {0})
modulus_operation = binary mod_values

unfoldable pub plus_value : Strconv → DataType → DataType
plus_value c (integer a) = integer a
plus_value c (number a) = number a
plus_value c (boolean b) = if b then integer 1 else integer 0
plus_value c v = number (to_number c v)

unfoldable pub minus_value : Strconv → DataType → DataType
minus_value c (integer a) = integer (neg_word a)
minus_value c (number a) = number (neg_float a)
minus_value c (boolean b) = if b then integer minus_one else integer 0
minus_value c v = number (neg_float (to_number c v))

unfoldable pub unary_plus_operation : Strconv → M (Unit {0})
unary_plus_operation c = unary (plus_value c)

unfoldable pub unary_minus_operation : Strconv → M (Unit {0})
unary_minus_operation c = unary (minus_value c)
