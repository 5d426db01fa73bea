-- ===== src/Types/Value.antt =====
-- The data types of types/types.go. What the source holds by pointer (arrays, objects, functions)
-- is a reference into the heap of `Engine.Heap`.
use mathlib.Core.Bool.{Bool}
use Prim.Native.Nat.{ℕ}
use mathlib.Core.List.{List}
use gescript.Base.{Bytes}
use gescript.Word.{Word}
use gescript.Float.{Float}

abbrev pub Ref : Type 0
Ref = ℕ

-- A DataType is a Go interface: `nil` is its nil value, which is no value of a script.
pub data DataType : Type 0 where
  nil undefined null : DataType
  boolean : Bool → DataType
  integer : Word → DataType
  number : Float → DataType
  string : Bytes → DataType
  array object script_function native_function native_method native_constructor bound_function :
      Ref → DataType

-- A Go map with string keys: at most one entry for a key.
abbrev pub StringMap : Type 0
StringMap = List (Bytes × DataType)
