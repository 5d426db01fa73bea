-- ===== src/Engine/Host.antt =====
-- What an embedding program and Go's libraries supply to a process.
use gescript.Base.{ℕ, List, Bytes}
use gescript.Types.Value.{DataType}
use gescript.Types.Convert.{Strconv}
use gescript.Engine.Heap.{Heap}
use gescript.Engine.Process.{M}

-- `range_order` is the order in which Go ranges over a map with these keys. `call_native` runs the
-- Go function of a number, and `resolve_member` the resolver of a number on a value and a name; a
-- Go result of nil is the value `nil`.
pub record Host : Type 0 where
  pub strconv : Strconv
  pub range_order : List Bytes → List Bytes
  pub call_native : ℕ → List DataType → M DataType
  pub resolve_member : ℕ → DataType → Bytes → Heap → DataType × Heap
