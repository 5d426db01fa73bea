-- ===== src/Engine/Ops/Property.antt =====
-- Properties by a name that the code gives, and the globals of the script.
use gescript.Base.{true, Bytes}
use gescript.Float.{nan}
use gescript.Types.Value.{DataType, boolean, number, object, native_constructor}
use gescript.Types.Object
use gescript.Engine.Heap.{properties, set_properties}
use gescript.Engine.Process.{M, ok, pure, gets, modify, ◌>>=◌, ◌>>◌, push, pop, peek, get_global}
use gescript.Engine.Host.{Host}
use gescript.Engine.Ops.Variable.{increment_value, decrement_value}
use gescript.Engine.Ops.Element.{static_member, write_property, member_or_undefined, own_or_member}

unfoldable pub property_of : Host → Bytes → DataType → M DataType
property_of host name (native_constructor r) = gets λ p. static_member p.heap r name
property_of host name (object r) = own_or_member host r name
property_of host name target = member_or_undefined host target name

unfoldable pub get_property_operation : Host → Bytes → M (Unit {0})
get_property_operation host name = do target ← pop; res ← property_of host name target; push res

unfoldable pub store_property : DataType → Bytes → DataType → M (Unit {0})
store_property (object r) name val = write_property r name val
store_property _ name val = pure tt

-- The value stays on the stack, the residue of the assignment.
unfoldable pub set_property_operation : Bytes → M (Unit {0})
set_property_operation name = do val ← pop; target ← pop; store_property target name val; push val

unfoldable pub discard_property : DataType → Bytes → M (Unit {0})
discard_property (object r) name =
    modify
      λ p. record p { heap = set_properties p.heap r (Object.remove (properties p.heap r) name) }
discard_property _ name = pure tt

unfoldable pub delete_property_operation : Bytes → M (Unit {0})
delete_property_operation name = do obj ← pop; discard_property obj name; push (boolean true)

unfoldable pub update_property : (DataType → DataType) → DataType → Bytes → M (DataType × DataType)
update_property f (object r) name p =
    let old = Object.get (properties p.heap r) name in
    (do write_property r name (f old); pure (old, f old)) p
update_property f _ name p = ok (number nan, number nan) p

abbrev property_step :
    (DataType → DataType) → (DataType × DataType → DataType) → Bytes → M (Unit {0})
property_step f shown name = do
  target ← pop
  both ← update_property f target name
  push (shown both)

unfoldable pub pre_increment_property_operation : Bytes → M (Unit {0})
pre_increment_property_operation = property_step increment_value (λ both. both.1)

unfoldable pub post_increment_property_operation : Bytes → M (Unit {0})
post_increment_property_operation = property_step increment_value (λ both. both.0)

unfoldable pub pre_decrement_property_operation : Bytes → M (Unit {0})
pre_decrement_property_operation = property_step decrement_value (λ both. both.1)

unfoldable pub post_decrement_property_operation : Bytes → M (Unit {0})
post_decrement_property_operation = property_step decrement_value (λ both. both.0)

unfoldable pub load_global_operation : Bytes → M (Unit {0})
load_global_operation name p = push (get_global p name) p

unfoldable pub store_global_operation : Bytes → M (Unit {0})
store_global_operation name = do
  val ← peek
  modify λ p. record p { globals = Object.insert p.globals name val }
