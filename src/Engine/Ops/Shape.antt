-- ===== src/Engine/Ops/Shape.antt =====
-- The shapes that the opcode functions share: pull two operands, the right one first, and push a
-- result; or pull one.
use gescript.Base.{none, some, Bytes}
use gescript.Types.Value.{DataType}
use gescript.Types.Convert.{Strconv, to_string, nesting}
use gescript.Engine.Process.{M, ok, panic, stack_overflow, ◌>>=◌, push, pop}

unfoldable pub binary : (DataType → DataType → DataType) → M (Unit {0})
binary f = do right ← pop; left ← pop; push (f left right)

unfoldable pub unary : (DataType → DataType) → M (Unit {0})
unary f = do val ← pop; push (f val)

-- types.ToString(val) in the heap as it is; an endless recursion exhausts Go's stack.
unfoldable pub text_of : Strconv → DataType → M Bytes
text_of c v p = elim (to_string c p.heap (nesting p.heap) v) [
  | none ↦ panic stack_overflow
  | some s ↦ ok s p
]
