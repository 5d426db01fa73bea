-- ===== src/Engine/Exec/Kept/Elements.antt =====
-- The stack pointers of a process through the operations on elements and properties and the
-- iterators of the for loops.
use gescript.Base.{List, true, false, Bytes, Option, none, some, not, ◌&&◌, length, leb}
use gescript.Word.{Word, is_neg}
use gescript.Types.Value.{
  DataType, Ref, undefined, boolean, integer, number, string, array, object, native_constructor,
}
use gescript.Types.Array
use gescript.Types.Object
use gescript.Engine.Heap.{elements, properties, set_elements}
use gescript.Engine.Host.{Host}
use gescript.Engine.Process.{
  Process, Outcome, M, ok, panic, push, pop, ◌>>◌, index_out_of_range, pure, get_global,
}
use gescript.Engine.Process.Fits.{
  Fits, FitsAfter, FitsAfter-if, FitsAfter-option, Keeps, Keeps-push, Keeps-bind, Keeps-pure,
  Keeps-pop, keeps_rules,
}
use gescript.Engine.Ops.Shape.{text_of}
use gescript.Engine.Ops.Element.{
  write_element, write_property, resolve_instance_member, member_or_undefined, own_or_member,
  array_element, string_element, object_element, element_of, store_element, delete_array_element,
  delete_from, update_element, in_operation, is_in, index_or_zero, name_or_empty,
}
use gescript.Engine.Ops.Property.{
  property_of, store_property, discard_property, update_property, load_global_operation,
}
use gescript.Engine.Ops.ForLoop.{bind_element, for_in_advance}
use gescript.Engine.Exec.Kept.Locals.{Keeps-text_of, Keeps-write_local}

pub Keeps-write_element : (r : Ref) (i : Word) (v : DataType) → Keeps (write_element r i v)
unfolding write_element
Keeps-write_element r i v = record {
  at = λ p h.
      FitsAfter-option (Array.set_at (elements p.heap r) i v) (panic index_out_of_range)
        (λ els. ok tt (record p { heap = set_elements p.heap r els })) tt λ els. h;
}

pub Keeps-write_property : (r : Ref) (name : Bytes) (v : DataType) → Keeps (write_property r name v)
unfolding write_property
Keeps-write_property r name v = search keeps_rules

pub Keeps-resolve_instance_member :
    (host : Host) (target : DataType) (name : Bytes)
    → Keeps (resolve_instance_member host target name)
unfolding resolve_instance_member
Keeps-resolve_instance_member host target name = record { at = λ p h. h }

pub Keeps-member_or_undefined :
    (host : Host) (target : DataType) (name : Bytes) → Keeps (member_or_undefined host target name)
unfolding member_or_undefined
Keeps-member_or_undefined host target name = search (keeps_rules, Keeps-resolve_instance_member)

pub ruleset member_rules =
    (keeps_rules, Keeps-resolve_instance_member, Keeps-member_or_undefined, Keeps-text_of)

FitsAfter-own :
    (v : DataType) (missing : Outcome DataType) (p : Process)
    → Fits p
    → FitsAfter missing
    → FitsAfter (elim v [ undefined ↦ missing | w ↦ ok w p ])
FitsAfter-own undefined missing p h hm = hm
FitsAfter-own _ missing p h hm = h

pub Keeps-own_or_member : (host : Host) (r : Ref) (name : Bytes) → Keeps (own_or_member host r name)
unfolding own_or_member
Keeps-own_or_member host r name = record {
  at = λ p h.
      FitsAfter-own (Object.get (properties p.heap r) name)
        (member_or_undefined host (object r) name p) p h
        ((Keeps-member_or_undefined host (object r) name).at p h);
}

Keeps-array_element :
    (host : Host) (r : Ref) (index : DataType) → Keeps (array_element host r index)
unfolding array_element
Keeps-array_element host r (integer i) = search keeps_rules
Keeps-array_element host r (number f) = search keeps_rules
Keeps-array_element host r (string name) = search member_rules
Keeps-array_element host r _ = search keeps_rules

Keeps-string_element :
    (host : Host) (s : Bytes) (index : DataType) → Keeps (string_element host s index)
unfolding string_element
Keeps-string_element host s (integer i) = search member_rules
Keeps-string_element host s (number f) = search member_rules
Keeps-string_element host s (string name) = search member_rules
Keeps-string_element host s _ = search member_rules

Keeps-object_element :
    (host : Host) (r : Ref) (index : DataType) → Keeps (object_element host r index)
unfolding object_element
Keeps-object_element host r (string name) = Keeps-own_or_member host r name
Keeps-object_element host r (integer i) = search Keeps-own_or_member
Keeps-object_element host r _ = search keeps_rules

pub Keeps-element_of :
    (host : Host) (target index : DataType) → Keeps (element_of host target index)
unfolding element_of
Keeps-element_of host (array r) index = Keeps-array_element host r index
Keeps-element_of host (object r) index = Keeps-object_element host r index
Keeps-element_of host (string s) index = Keeps-string_element host s index
Keeps-element_of host _ index = search member_rules

pub Keeps-store_element : (target index v : DataType) → Keeps (store_element target index v)
unfolding store_element
Keeps-store_element (array r) index v = search Keeps-write_element
Keeps-store_element (object r) index v = search Keeps-write_property
Keeps-store_element _ index v = search keeps_rules

FitsAfter-then :
    {A : Type 0} (m : M (Unit {0})) (a : A) (p : Process)
    → Keeps m
    → Fits p
    → FitsAfter ((do m; pure a) p)
FitsAfter-then m a p km h = (Keeps-bind m (λ _. pure a) km λ _. Keeps-pure a).at p h

Keeps-delete_array_element : (r : Ref) (i : Option Word) → Keeps (delete_array_element r i)
unfolding delete_array_element
Keeps-delete_array_element r none = record { at = λ p h. (Keeps-push (boolean false)).at p h }
Keeps-delete_array_element r (some i) = record {
  at = λ p h.
      let write : M (Unit {0}) = (do write_element r i undefined; push (boolean true)) in
      let write-Keeps : Keeps write = search (keeps_rules, Keeps-write_element) in
      FitsAfter-if (not (is_neg i) && not (leb (length (elements p.heap r)) i)) (write p)
        (push (boolean false) p) (write-Keeps.at p h) ((Keeps-push (boolean false)).at p h);
}

pub Keeps-delete_from :
    (host : Host) (target index : DataType) → Keeps (delete_from host target index)
unfolding delete_from
Keeps-delete_from host (array r) index = search Keeps-delete_array_element
Keeps-delete_from host (object r) index = search member_rules
Keeps-delete_from host _ index = search keeps_rules

pub Keeps-update_element :
    (f : DataType → DataType) (target index : DataType) → Keeps (update_element f target index)
unfolding update_element
Keeps-update_element f (array r) index = record {
  at = λ p h.
      let i = index_or_zero index in
      let old = Array.get (elements p.heap r) i in
      FitsAfter-then (write_element r i (f old)) (old, f old) p (Keeps-write_element r i (f old)) h;
}
Keeps-update_element f (object r) index = record {
  at = λ p h.
      let name = name_or_empty index in
      let old = Object.get (properties p.heap r) name in
      FitsAfter-then (write_property r name (f old)) (old, f old) p
        (Keeps-write_property r name (f old)) h;
}
Keeps-update_element f _ index = record { at = λ p h. h }

pub Keeps-property_of :
    (host : Host) (name : Bytes) (target : DataType) → Keeps (property_of host name target)
unfolding property_of
Keeps-property_of host name (native_constructor r) = search keeps_rules
Keeps-property_of host name (object r) = search Keeps-own_or_member
Keeps-property_of host name _ = search member_rules

pub Keeps-store_property :
    (target : DataType) (name : Bytes) (v : DataType) → Keeps (store_property target name v)
unfolding store_property
Keeps-store_property (object r) name v = search Keeps-write_property
Keeps-store_property _ name v = search keeps_rules

pub Keeps-discard_property :
    (target : DataType) (name : Bytes) → Keeps (discard_property target name)
unfolding discard_property
Keeps-discard_property (object r) name = search keeps_rules
Keeps-discard_property _ name = search keeps_rules

pub Keeps-update_property :
    (f : DataType → DataType) (target : DataType) (name : Bytes)
    → Keeps (update_property f target name)
unfolding update_property
Keeps-update_property f (object r) name = record {
  at = λ p h.
      let old = Object.get (properties p.heap r) name in
      FitsAfter-then (write_property r name (f old)) (old, f old) p
        (Keeps-write_property r name (f old)) h;
}
Keeps-update_property f _ name = record { at = λ p h. h }

pub Keeps-bind_element :
    (slot : Word) (els : List DataType) (i : Word) → Keeps (bind_element slot els i)
unfolding bind_element
Keeps-bind_element slot els i = search (keeps_rules, Keeps-write_local)

pub Keeps-for_in_advance :
    (slot : Word) (keys index : DataType) → Keeps (for_in_advance slot keys index)
unfolding for_in_advance
Keeps-for_in_advance slot (array r) index = search (keeps_rules, Keeps-bind_element)
Keeps-for_in_advance slot _ index = search keeps_rules

-- A push of what the process holds.
Keeps-push_of : (f : Process → DataType) → Keeps (λ p. push (f p) p)
Keeps-push_of f = record { at = λ p h. (Keeps-push (f p)).at p h }

pub Keeps-in : (host : Host) → Keeps (in_operation host)
unfolding in_operation
Keeps-in host = Keeps-bind pop _ Keeps-pop λ obj. Keeps-bind pop _ Keeps-pop λ prop.
    Keeps-bind (text_of host.strconv prop) _ (Keeps-text_of host.strconv prop)
      λ name. Keeps-push_of λ p. boolean (is_in obj prop name p.heap)

pub Keeps-load_global : (name : Bytes) → Keeps (load_global_operation name)
unfolding load_global_operation
Keeps-load_global name = Keeps-push_of λ p. get_global p name
