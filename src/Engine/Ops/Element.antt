-- ===== src/Engine/Ops/Element.antt =====
-- Elements of arrays and properties of objects: read, write, delete, test, increment.
pub mod Access
use gescript.Base.{
  ℕ, Bool, true, false, not, ◌&&◌, ◌||◌, ◌==◌, ◌≡◌, Option, none, some, List, [], ◌∷◌, Bytes, leb,
  if◌then◌else◌, length, get_or, get_elem?,
}
use mathlib.Core.Option
use gescript.Word.{Word, is_neg}
use gescript.Float.{nan, to_word}
use gescript.Decimal.{format_int, atoi}
use gescript.Types.Value.{
  DataType, nil, undefined, null, boolean, integer, number, string, array, object,
  native_constructor, Ref,
}
use gescript.Types.Array
use gescript.Types.Object
use gescript.Engine.Heap.{
  Heap, NativeConstructor, elements, properties, set_elements, set_properties,
}
use gescript.Engine.Process.{
  M, Process, Outcome, ok, panic, index_out_of_range, pure, gets, modify, ◌>>=◌, ◌>>◌, push, pop,
}
use gescript.Engine.Host.{Host}
use gescript.Engine.Ops.Shape.{text_of}
use gescript.Engine.Ops.Variable.{increment_value, decrement_value}

-- tgt.Set(idx, val) and tgt.Set(propName, val) through a reference
unfoldable pub write_element : Ref → Word → DataType → M (Unit {0})
write_element r idx val p = elim (Array.set_at (elements p.heap r) idx val) [
  | none ↦ panic index_out_of_range
  | some els ↦ ok tt (record p { heap = set_elements p.heap r els })
]

unfoldable pub write_property : Ref → Bytes → DataType → M (Unit {0})
write_property r name val =
    modify λ p. record p {
      heap = set_properties p.heap r (Object.insert (properties p.heap r) name val);
    }

-- The index of an array access where other types count as 0, and the name of a property access
-- where other types count as the empty name.
unfoldable pub index_or_zero : DataType → Word
index_or_zero (integer i) = i
index_or_zero (number f) = to_word f
index_or_zero _ = 0

unfoldable pub name_or_empty : DataType → Bytes
name_or_empty (string s) = s
name_or_empty (integer i) = format_int i
name_or_empty _ = []

-- The value, or another in place of a Go nil.
abbrev pub or_else : DataType → DataType → DataType
or_else nil other = other
or_else v other = v

-- The resolvers in turn, up to the first that answers.
unfoldable pub resolve_with :
    Host → List NativeConstructor → DataType → Bytes → Heap → DataType × Heap
resolve_with host [] target name h = (nil, h)
resolve_with host (nc ∷ ncs) target name h = elim nc.instance_members [
  | none ↦ resolve_with host ncs target name h
  | some n ↦
      let (member, h') = host.resolve_member n target name h in
      elim member [ nil ↦ resolve_with host ncs target name h' | found ↦ (found, h') ]
]

unfoldable pub constructors_at : Heap → List Ref → List NativeConstructor
constructors_at h [] = []
constructors_at h (r ∷ rs) = elim (get_elem? h.constructors r) [
  | none ↦ constructors_at h rs
  | some nc ↦ nc ∷ constructors_at h rs
]

-- prc.resolveInstanceMember(target, propName); `nil` if nobody answers.
unfoldable pub resolve_instance_member : Host → DataType → Bytes → M DataType
resolve_instance_member host target name p =
    let (member, h) =
      resolve_with host (constructors_at p.heap p.constructors) target name p.heap in
    ok member (record p { heap = h })

-- The member, or undefined.
unfoldable pub member_or_undefined : Host → DataType → Bytes → M DataType
member_or_undefined host target name = do
  member ← resolve_instance_member host target name
  pure (or_else member undefined)

-- nc.Get(propName)
unfoldable pub static_member : Heap → Ref → Bytes → DataType
static_member h r name = elim (get_elem? h.constructors r) [
  | none ↦ undefined
  | some nc ↦ Object.get nc.static_methods name
]

-- An object's own property; one that is absent or undefined is looked for among the members.
unfoldable pub own_or_member : Host → Ref → Bytes → M DataType
own_or_member host r name p = elim (Object.get (properties p.heap r) name) [
  | undefined ↦ member_or_undefined host (object r) name p
  | v ↦ ok v p
]

-- A name as an array index, for the keys of a for-in loop.
unfoldable pub index_by_name : List DataType → Bytes → DataType
index_by_name els name = elim (atoi name) [ none ↦ undefined | some i ↦ Array.get els i ]

unfoldable pub array_element : Host → Ref → DataType → M DataType
array_element host r (integer i) = gets λ p. Array.get (elements p.heap r) i
array_element host r (number f) = gets λ p. Array.get (elements p.heap r) (to_word f)
array_element host r (string name) = do
  member ← resolve_instance_member host (array r) name
  gets λ p. or_else member (index_by_name (elements p.heap r) name)
array_element host r _ = pure undefined

-- str[idx:idx+1], one byte
unfoldable pub byte_at : Bytes → Word → DataType
byte_at s i =
    if not (is_neg i) && not (leb (length s) i) then string (get_or s i 0 ∷ []) else undefined

unfoldable pub string_element : Host → Bytes → DataType → M DataType
string_element host s (integer i) = pure (byte_at s i)
string_element host s (number f) = pure (byte_at s (to_word f))
string_element host s (string name) = member_or_undefined host (string s) name
string_element host s _ = pure undefined

unfoldable pub object_element : Host → Ref → DataType → M DataType
object_element host r (string name) = own_or_member host r name
object_element host r (integer i) = own_or_member host r (format_int i)
object_element host r _ = pure undefined

unfoldable pub element_of : Host → DataType → DataType → M DataType
element_of host (native_constructor r) index = do
  name ← text_of host.strconv index
  gets λ p. static_member p.heap r name
element_of host (array r) index = array_element host r index
element_of host (object r) index = object_element host r index
element_of host (string s) index = string_element host s index
element_of host target index = do
  name ← text_of host.strconv index
  member_or_undefined host target name

unfoldable pub get_element_operation : Host → M (Unit {0})
get_element_operation host = do
  index ← pop
  target ← pop
  res ← element_of host target index
  push res

unfoldable pub store_element : DataType → DataType → DataType → M (Unit {0})
store_element (array r) index val = write_element r (index_or_zero index) val
store_element (object r) index val = write_property r (name_or_empty index) val
store_element _ index val = pure tt

unfoldable pub set_element_operation : M (Unit {0})
set_element_operation = do
  val ← pop
  index ← pop
  target ← pop
  store_element target index val
  push val

unfoldable pub delete_array_element : Ref → Option Word → M (Unit {0})
delete_array_element r none p = push (boolean false) p
delete_array_element r (some i) p =
    if not (is_neg i) && not (leb (length (elements p.heap r)) i)
    then (do write_element r i undefined; push (boolean true)) p
    else push (boolean false) p

-- The index of a test or a delete, which other types than the numbers have not.
abbrev index_of : DataType → Option Word
index_of (integer i) = some i
index_of (number f) = some (to_word f)
index_of _ = none

abbrev remove_property : Ref → Bytes → M (Unit {0})
remove_property r name =
    modify
      λ p. record p { heap = set_properties p.heap r (Object.remove (properties p.heap r) name) }

unfoldable pub delete_from : Host → DataType → DataType → M (Unit {0})
delete_from host (array r) index = delete_array_element r (index_of index)
delete_from host (object r) index = do
  name ← text_of host.strconv index
  remove_property r name
  push (boolean true)
delete_from host _ index = push (boolean false)

unfoldable pub delete_element_operation : Host → M (Unit {0})
delete_element_operation host = do index ← pop; target ← pop; delete_from host target index

unfoldable pub in_range : List DataType → Option Word → Bool
in_range els none = false
in_range els (some i) = not (is_neg i) && not (leb (length els) i)

unfoldable pub is_in : DataType → DataType → Bytes → Heap → Bool
is_in (object r) prop name h = Object.has (properties h r) name
is_in (array r) prop name h = in_range (elements h r) (index_of prop)
is_in _ prop name h = false

-- The text of the property is formed first, whatever the object is.
unfoldable pub in_operation : Host → M (Unit {0})
in_operation host = do
  obj ← pop
  prop ← pop
  name ← text_of host.strconv prop
  (λ p. push (boolean (is_in obj prop name p.heap)) p)

-- Increment and decrement of an element: write the new value, and hand back the old and the new.
unfoldable pub update_element :
    (DataType → DataType) → DataType → DataType → M (DataType × DataType)
update_element f (array r) index p =
    let i = index_or_zero index in
    let old = Array.get (elements p.heap r) i in (do write_element r i (f old); pure (old, f old)) p
update_element f (object r) index p =
    let name = name_or_empty index in
    let old = Object.get (properties p.heap r) name in
    (do write_property r name (f old); pure (old, f old)) p
update_element f _ index p = ok (number nan, number nan) p

abbrev element_step : (DataType → DataType) → (DataType × DataType → DataType) → M (Unit {0})
element_step f shown = do
  index ← pop
  target ← pop
  both ← update_element f target index
  push (shown both)

unfoldable pub pre_increment_element_operation : M (Unit {0})
pre_increment_element_operation = element_step increment_value (λ both. both.1)

unfoldable pub post_increment_element_operation : M (Unit {0})
post_increment_element_operation = element_step increment_value (λ both. both.0)

unfoldable pub pre_decrement_element_operation : M (Unit {0})
pre_decrement_element_operation = element_step decrement_value (λ both. both.1)

unfoldable pub post_decrement_element_operation : M (Unit {0})
post_decrement_element_operation = element_step decrement_value (λ both. both.0)
