-- ===== src/Engine/Ops/Bitwise.antt =====
-- The shifts, the bitwise operations and the logical not.
use gescript.Base.{not}
use gescript.Word.{Word, shl32, sar32, shr32, not32, and_word, or_word, xor_word}
use gescript.Float.{to_word}
use gescript.Types.Value.{DataType, boolean, integer, number}
use gescript.Types.Convert.{is_truthy}
use gescript.Engine.Process.{M}
use gescript.Engine.Ops.Shape.{binary, unary}

-- The operand as an int64; what is no number counts as 0.
unfoldable pub int_operand : DataType → Word
int_operand (integer a) = a
int_operand (number a) = to_word a
int_operand _ = 0

unfoldable pub on_words : (Word → Word → Word) → DataType → DataType → DataType
on_words f left right = integer (f (int_operand left) (int_operand right))

unfoldable pub left_shift_operation : M (Unit {0})
left_shift_operation = binary (on_words shl32)

unfoldable pub right_shift_operation : M (Unit {0})
right_shift_operation = binary (on_words sar32)

unfoldable pub unsigned_right_shift_operation : M (Unit {0})
unsigned_right_shift_operation = binary (on_words shr32)

unfoldable pub bitwise_and_operation : M (Unit {0})
bitwise_and_operation = binary (on_words and_word)

unfoldable pub bitwise_or_operation : M (Unit {0})
bitwise_or_operation = binary (on_words or_word)

unfoldable pub bitwise_xor_operation : M (Unit {0})
bitwise_xor_operation = binary (on_words xor_word)

unfoldable pub bitwise_not_value : DataType → DataType
bitwise_not_value v = integer (not32 (int_operand v))

unfoldable pub bitwise_not_operation : M (Unit {0})
bitwise_not_operation = unary bitwise_not_value

unfoldable pub logical_not_value : DataType → DataType
logical_not_value v = boolean (not (is_truthy v))

unfoldable pub logical_not_operation : M (Unit {0})
logical_not_operation = unary logical_not_value
