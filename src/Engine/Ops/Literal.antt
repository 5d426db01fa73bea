-- ===== src/Engine/Ops/Literal.antt =====
-- Literals, typeof and instanceof, and the new arrays and objects.
pub mod Objects
use gescript.Base.{
  ℕ, zero, suc, Bool, true, false, ◌||◌, Option, none, some, List, [], ◌∷◌, ◌++◌, Bytes, codes,
  str_eq, String, if◌then◌else◌, length, get_elem?, ◌==◌, reverse,
}
use gescript.Types.Value.{
  DataType, nil, undefined, null, boolean, integer, number, string, array, object, script_function,
  native_function, native_constructor,
}
use gescript.Types.Object
use gescript.Engine.Code.{Count, plain, spread}
use gescript.Engine.Heap.{Heap, elements, alloc_array, alloc_object}
use gescript.Engine.Process.{M, Process, pure, gets, modify, with_heap, ◌>>=◌, ◌>>◌, push, pop}
use gescript.Engine.Ops.Shape.{unary}

unfoldable pub push_literal_value_operation : DataType → M (Unit {0})
push_literal_value_operation v = push v

unfoldable pub type_name : DataType → Bytes
type_name undefined = codes "undefined"
type_name null = codes "object"
type_name (boolean b) = codes "boolean"
type_name (integer i) = codes "number"
type_name (number f) = codes "number"
type_name (string s) = codes "string"
type_name (script_function r) = codes "function"
type_name (native_function r) = codes "function"
type_name (array r) = codes "object"
type_name (object r) = codes "object"
type_name _ = codes "undefined"

unfoldable pub typeof_operation : M (Unit {0})
typeof_operation = unary λ v. string (type_name v)

-- The name of the constructor to compare with, if it is one.
unfoldable pub constructor_name : Heap → DataType → Option Bytes
constructor_name h (native_constructor r) = elim (get_elem? h.constructors r) [
  | none ↦ none
  | some c ↦ some c.name
]
constructor_name h (native_function r) = elim (get_elem? h.natives r) [
  | none ↦ none
  | some c ↦ some c.name
]
constructor_name h (script_function r) = elim (get_elem? h.functions r) [
  | none ↦ none
  | some c ↦ some c.name
]
constructor_name h _ = none

-- The name of the constructor that a value counts as an instance of.
unfoldable pub instance_name : DataType → Option Bytes
instance_name (script_function r) = some (codes "Function")
instance_name (native_function r) = some (codes "Function")
instance_name (array r) = some (codes "Array")
instance_name (object r) = some (codes "Object")
instance_name (integer i) = some (codes "Number")
instance_name (number f) = some (codes "Number")
instance_name (string s) = some (codes "String")
instance_name (boolean b) = some (codes "Boolean")
instance_name _ = none

unfoldable pub instance_of : Heap → DataType → DataType → Bool
instance_of h obj constructor = elim (constructor_name h constructor) [
  | none ↦ false
  | some c ↦ elim (instance_name obj) [ none ↦ false | some n ↦ str_eq n c ]
]

unfoldable pub instanceof_operation : M (Unit {0})
instanceof_operation = do
  constructor ← pop
  obj ← pop
  res ← gets λ p. instance_of p.heap obj constructor
  push (boolean res)

-- The loop that pops `count` values, the last one first.
unfoldable pub pop_values : ℕ → List DataType → M (List DataType)
pop_values zero acc = pure acc
pop_values (suc n) acc = pop >>= λ v. pop_values n (v ∷ acc)

-- Where the mask says so and the value is an array, its elements in its place.
unfoldable pub expand_spread : Heap → List Bool → List DataType → List DataType
expand_spread h mask [] = []
expand_spread h (true ∷ mask) (array r ∷ vs) = elements h r ++ expand_spread h mask vs
expand_spread h (b ∷ mask) (v ∷ vs) = v ∷ expand_spread h mask vs
expand_spread h [] (v ∷ vs) = v ∷ expand_spread h [] vs

-- The elements of an array literal, and the arguments of a call (extractCallArgs).
unfoldable pub extract_values : Count → M (List DataType)
extract_values (plain n) = pop_values n []
extract_values (spread n mask) = do raw ← pop_values n []; gets λ p. expand_spread p.heap mask raw

unfoldable pub push_new_array : List DataType → M (Unit {0})
push_new_array els = do
  r ← gets λ p. length p.heap.arrays
  modify λ p. record p { heap = alloc_array p.heap els }
  push (array r)

unfoldable pub new_array_operation : Count → M (Unit {0})
new_array_operation count = do els ← extract_values count; push_new_array els

-- The loop over the keys, the last one first; `keys` is the list of them reversed.
unfoldable pub pop_properties : List Bytes → List (Bytes × DataType) → M (List (Bytes × DataType))
pop_properties [] m = pure m
pop_properties (k ∷ ks) m = pop >>= λ v. pop_properties ks (Object.insert m k v)

unfoldable pub new_object_operation : List Bytes → M (Unit {0})
new_object_operation keys = do
  m ← pop_properties (reverse keys) []
  r ← gets λ p. length p.heap.objects
  modify λ p. record p { heap = alloc_object p.heap m }
  push (object r)
