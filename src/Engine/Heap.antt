-- ===== src/Engine/Heap.antt =====
-- What the source reaches by pointers. A reference is a position in one of the lists; the code
-- only follows references to what it has allocated.
use gescript.Base.{ℕ, List, ◌∷◌, [], ◌++◌, Bytes, Option, length, get_or, set}
use gescript.Types.Value.{DataType, Ref, StringMap}
use gescript.Engine.Code.{ScriptFunction}

-- A native function is its name and the number of its Go function.
pub record NativeFunction : Type 0 where
  pub name : Bytes
  pub fn : ℕ

pub record NativeMethod : Type 0 where
  pub target : DataType
  pub method : NativeFunction

-- `instance_members` is the number of the resolver, if there is one.
pub record NativeConstructor : Type 0 where
  pub name : Bytes
  pub constructor : ℕ
  pub instance_members : Option ℕ
  pub static_methods : StringMap

pub record BoundFunction : Type 0 where
  pub target : DataType
  pub bound_this : DataType
  pub bound_args : List DataType

-- A Cell holds a pointer to a value: its own, the package variable types.Undefined, or nil.
pub data Cell : Type 0 where
  holds : DataType → Cell
  shares_undefined empty : Cell

pub record Heap : Type 0 where
  pub arrays : List (List DataType)
  pub objects : List StringMap
  pub cells : List Cell
  pub functions : List ScriptFunction
  pub natives : List NativeFunction
  pub methods : List NativeMethod
  pub constructors : List NativeConstructor
  pub bounds : List BoundFunction

abbrev pub elements : Heap → Ref → List DataType
elements h r = get_or h.arrays r []

abbrev pub properties : Heap → Ref → StringMap
properties h r = get_or h.objects r []

abbrev pub set_elements : Heap → Ref → List DataType → Heap
set_elements h r els = record h { arrays = set h.arrays r els }

abbrev pub set_properties : Heap → Ref → StringMap → Heap
set_properties h r m = record h { objects = set h.objects r m }

-- Allocation takes the next free position.
abbrev pub new_array_ref : Heap → Ref
new_array_ref h = length h.arrays

abbrev pub alloc_array : Heap → List DataType → Heap
alloc_array h els = record h { arrays = h.arrays ++ els ∷ [] }

abbrev pub alloc_object : Heap → StringMap → Heap
alloc_object h m = record h { objects = h.objects ++ m ∷ [] }

abbrev pub alloc_cell : Heap → Cell → Heap
alloc_cell h c = record h { cells = h.cells ++ c ∷ [] }

abbrev pub alloc_function : Heap → ScriptFunction → Heap
alloc_function h f = record h { functions = h.functions ++ f ∷ [] }
