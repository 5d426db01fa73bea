-- ===== src/Types/Object/Laws.antt =====
-- Reads after writes.
use gescript.Base.{◌≡◌, refl, none, some, [], ◌∷◌, Bytes, arith, if◌then◌else◌, str_eq, str_eq_iff}
use gescript.Types.Value.{DataType, StringMap}
use gescript.Types.Object.{lookup, insert, remove}

-- After a write of `k`, a look-up of `k` finds the new value and any other look-up is as before.
pub lookup-insert :
    (m : StringMap) (k j : Bytes) (v : DataType)
    → lookup (insert m k v) j ≡ (if str_eq k j then some v else lookup m j)
unfolding lookup insert
lookup-insert [] k j v = refl
lookup-insert ((i, w) ∷ m) k j v =
    ground (arith, str_eq_iff k j, str_eq_iff i k, str_eq_iff i j, lookup-insert m k j v)

-- After a delete of `k`, a look-up of `k` finds nothing and any other look-up is as before.
pub lookup-remove :
    (m : StringMap) (k j : Bytes)
    → lookup (remove m k) j ≡ (if str_eq k j then none else lookup m j)
unfolding lookup remove
lookup-remove [] k j = ground arith
lookup-remove ((i, w) ∷ m) k j =
    ground (arith, str_eq_iff k j, str_eq_iff i k, str_eq_iff i j, lookup-remove m k j)
