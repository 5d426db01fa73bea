-- ===== src/Types/Object.antt =====
-- The methods of ObjectType (types/types.go), on the properties that a reference leads to. The
-- same maps serve for the natives and the globals of a process.
pub mod Laws
use gescript.Base.{
  Bool, true, false, Option, none, some, List, [], ◌∷◌, map, Bytes, if◌then◌else◌, str_eq,
}
use gescript.Types.Value.{DataType, undefined, StringMap}

-- val, ok := obj.Properties[propName]
unfoldable pub lookup : StringMap → Bytes → Option DataType
lookup [] name = none
lookup ((k, v) ∷ m) name = if str_eq k name then some v else lookup m name

-- obj.Get(propName)
unfoldable pub get : StringMap → Bytes → DataType
unfolding lookup
get m name = elim (lookup m name) [ none ↦ undefined | some v ↦ v ]

-- obj.Set(propName, val)
unfoldable pub insert : StringMap → Bytes → DataType → StringMap
insert [] name val = (name, val) ∷ []
insert ((k, v) ∷ m) name val = if str_eq k name then (name, val) ∷ m else (k, v) ∷ insert m name val

-- obj.Has(propName)
unfoldable pub has : StringMap → Bytes → Bool
unfolding lookup
has m name = elim (lookup m name) [ none ↦ false | some v ↦ true ]

-- delete(obj.Properties, propName)
unfoldable pub remove : StringMap → Bytes → StringMap
remove [] name = []
remove ((k, v) ∷ m) name = let rest = remove m name in if str_eq k name then rest else (k, v) ∷ rest

-- the keys, in the order of the entries
unfoldable pub keys : StringMap → List Bytes
keys = map λ entry. entry.0
