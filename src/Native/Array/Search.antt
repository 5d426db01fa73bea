-- ===== src/Native/Array/Search.antt =====
-- The searches of arrays.
use gescript.Base.{ℕ, ◌+◌, ◌≤◌, ◌<◌, ◌≡◌, true, false, Option, none, some, List, length, get_elem?}
use gescript.Types.Value.{DataType}
use gescript.Types.Equality.{strict_equals}
use gescript.Engine.Heap.{Heap}

-- No element from one place up to another is === the value.
abbrev pub NoneBetween : ℕ → ℕ → DataType → List DataType → Type 0
NoneBetween from to val els =
    (j : ℕ) (w : DataType)
    → from ≤ j
    → j < to
    → get_elem? els j ≡ some w
    → strict_equals w val ≡ false

-- The first place from `from` on at which an element is === the value, if there is one.
abbrev pub IsFirst : ℕ → DataType → List DataType → Option ℕ → Type 0
IsFirst from val els none = NoneBetween from (length els) val els
IsFirst from val els (some i) =
    (from ≤ i)
    × (el : DataType) × (get_elem? els i ≡ some el)
    × (strict_equals el val ≡ true)
    × NoneBetween from i val els

-- The place is counted from `idx`.
abbrev Finds : ℕ → DataType → List DataType → Option ℕ → Type 0
Finds idx val els none = NoneBetween 0 (length els) val els
Finds idx val els (some i) =
    (k : ℕ) × (i ≡ idx + k)
    × (el : DataType) × (get_elem? els k ≡ some el)
    × (strict_equals el val ≡ true)
    × NoneBetween 0 k val els
