-- ===== src/Tests/Values.antt =====
-- The theorems on values at concrete inputs.
use gescript.Base.{◌≡◌, refl, List, [], ◌∷◌, false, some, arith, length}
use gescript.Types.Value.{DataType, null, integer, array}
use gescript.Types.Array
use gescript.Types.Array.Laws.{get-set_at}
use gescript.Types.Equality.{strict_equals}
use gescript.Engine.Ops.Compare.{loose_equal}
use gescript.Engine.Ops.Compare.Equality.{loose_equal_of_strict}

abbrev two : List DataType
two = integer 7 ∷ null ∷ []

get-set_at_example :
    (ys : List DataType) × (Array.set_at two 4 (integer 1) ≡ some ys)
    × (Array.get ys 1 ≡ Array.get two 1)
    × (length ys ≡ 5)
get-set_at_example = get-set_at two 4 1 (integer 1) (omega arith) (omega arith)

loose_equal_of_strict_example : loose_equal (array 0) (array 0) ≡ false
unfolding strict_equals
loose_equal_of_strict_example = loose_equal_of_strict (array 0) (array 0) refl
