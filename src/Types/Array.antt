-- ===== src/Types/Array.antt =====
-- The methods of ArrayType (types/types.go), on the elements that a reference leads to.
pub mod Laws
use gescript.Base.{
  ℕ, ◌+◌, ◌-◌, Bool, ◌||◌, Option, none, some, List, ◌++◌, leb, if◌then◌else◌, length, get_or, set,
  replicate,
}
use gescript.Word.{Word, is_neg}
use gescript.Types.Value.{DataType, undefined}

-- arr.Get(index)
unfoldable pub get : List DataType → Word → DataType
get elements index =
    if is_neg index || leb (length elements) index
    then undefined
    else get_or elements index undefined

-- The loop of Set, which appends until `index` is in range.
unfoldable pub extend : List DataType → ℕ → List DataType
extend elements index = elements ++ replicate (index + 1 - length elements) undefined

-- arr.Set(index, val); `none` is the panic at a negative index.
unfoldable pub set_at : List DataType → Word → DataType → Option (List DataType)
unfolding extend
set_at elements index val =
    if is_neg index then none else some (set (extend elements index) index val)

-- NewArray(size), all undefined
unfoldable pub new : ℕ → List DataType
new size = replicate size undefined
