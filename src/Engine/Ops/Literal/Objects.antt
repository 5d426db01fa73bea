-- ===== src/Engine/Ops/Literal/Objects.antt =====
-- What an object literal builds.
use gescript.Base.{
  ◌≡◌, ◌∙◌, refl, ap, Bool, true, false, Option, none, some, List, [], ◌∷◌, ◌++◌, Bytes,
  if◌then◌else◌, str_eq, reverse, length,
}
use gescript.Types.Value.{DataType, StringMap, object}
use gescript.Types.Object.{lookup, insert}
use gescript.Types.Object.Laws.{lookup-insert}
use mathlib.Core.Path.{subst, sym}
use gescript.Engine.Process.{Process, pop, push}
use gescript.Engine.Process.Stack.{IsStack, values, Leaves, Leaves-bind, pop-Leaves, push-Leaves}
use mathlib.Core.List.{reverse-cons}
use gescript.Engine.Heap.{alloc_object}
use gescript.Engine.Ops.Literal.{pop_properties, new_object_operation}

-- The properties that the loop writes, in its order.
abbrev insert_all : List Bytes → List DataType → StringMap → StringMap
insert_all [] vs m = m
insert_all (k ∷ ks) [] m = m
insert_all (k ∷ ks) (v ∷ vs) m = insert_all ks vs (insert m k v)

abbrev same_length : List Bytes → List DataType → Bool
same_length [] [] = true
same_length (k ∷ ks) (v ∷ vs) = same_length ks vs
same_length _ _ = false

-- The loop takes one value for each key off the stack.
pub pop_properties-Leaves :
    (ks : List Bytes) (vs rest : List DataType) (m : StringMap) (p : Process)
    → IsStack p
    → same_length ks vs ≡ true
    → values p ≡ vs ++ rest
    → Leaves p (insert_all ks vs m) rest (pop_properties ks m p)
unfolding pop_properties
pop_properties-Leaves [] [] rest m p h s e = record {
  after = p;
  returned = refl;
  left = e;
  is_stack = h;
  rest = refl;
}
pop_properties-Leaves [] (v ∷ vs) rest m p h s e = absurd (cc)
pop_properties-Leaves (k ∷ ks) [] rest m p h s e = absurd (cc)
pop_properties-Leaves (k ∷ ks) (v ∷ vs) rest m p h s e =
    Leaves-bind pop (λ w. pop_properties ks (insert m k w)) (pop-Leaves v (vs ++ rest) p h e)
      λ q hq eq _. pop_properties-Leaves ks vs rest (insert m k v) q hq s eq

-- The value of the last of the written keys that is `j`.
abbrev last_of : List Bytes → List DataType → Bytes → Option DataType → Option DataType
last_of [] vs j d = d
last_of (k ∷ ks) [] j d = d
last_of (k ∷ ks) (v ∷ vs) j d = last_of ks vs j (if str_eq k j then some v else d)

lookup-insert_all :
    (ks : List Bytes) (vs : List DataType) (m : StringMap) (j : Bytes)
    → lookup (insert_all ks vs m) j ≡ last_of ks vs j (lookup m j)
lookup-insert_all [] vs m j = refl
lookup-insert_all (k ∷ ks) [] m j = refl
lookup-insert_all (k ∷ ks) (v ∷ vs) m j =
    lookup-insert_all ks vs (insert m k v) j ∙ ap (last_of ks vs j) (lookup-insert m k j v)

-- The value of the first of the keys, as the literal lists them, that is `j`.
abbrev pub first_of : List Bytes → List DataType → Bytes → Option DataType
first_of [] vs j = none
first_of (k ∷ ks) [] j = none
first_of (k ∷ ks) (v ∷ vs) j = if str_eq k j then some v else first_of ks vs j

last_of-append :
    (ks : List Bytes) (vs : List DataType) (k : Bytes) (v : DataType) (j : Bytes)
    (d : Option DataType)
    → same_length ks vs ≡ true
    → last_of (ks ++ k ∷ []) (vs ++ v ∷ []) j d ≡ (if str_eq k j then some v else last_of ks vs j d)
last_of-append [] [] k v j d h = refl
last_of-append [] (w ∷ vs) k v j d h = absurd (cc)
last_of-append (i ∷ ks) [] k v j d h = absurd (cc)
last_of-append (i ∷ ks) (w ∷ vs) k v j d h = last_of-append ks vs k v j _ h

same_length-append :
    (ks : List Bytes) (vs : List DataType) (k : Bytes) (v : DataType)
    → same_length ks vs ≡ true
    → same_length (ks ++ k ∷ []) (vs ++ v ∷ []) ≡ true
same_length-append [] [] k v h = refl
same_length-append [] (w ∷ vs) k v h = absurd (cc)
same_length-append (i ∷ ks) [] k v h = absurd (cc)
same_length-append (i ∷ ks) (w ∷ vs) k v h = same_length-append ks vs k v h

same_length-reverse :
    (ks : List Bytes) (vs : List DataType)
    → same_length ks vs ≡ true
    → same_length (reverse ks) (reverse vs) ≡ true
same_length-reverse [] [] h = refl
same_length-reverse [] (w ∷ vs) h = absurd (cc)
same_length-reverse (k ∷ ks) [] h = absurd (cc)
same_length-reverse (k ∷ ks) (v ∷ vs) h =
    rw (reverse-cons, reverse-cons)
      (same_length-append (reverse ks) (reverse vs) k v (same_length-reverse ks vs h))

last_of-reverse :
    (ks : List Bytes) (vs : List DataType) (j : Bytes)
    → same_length ks vs ≡ true
    → last_of (reverse ks) (reverse vs) j none ≡ first_of ks vs j
last_of-reverse [] [] j h = refl
last_of-reverse [] (w ∷ vs) j h = absurd (cc)
last_of-reverse (k ∷ ks) [] j h = absurd (cc)
last_of-reverse (k ∷ ks) (v ∷ vs) j h =
    rw (reverse-cons, reverse-cons)
      (last_of-append (reverse ks) (reverse vs) k v j none (same_length-reverse ks vs h)
        ∙ ap (λ e. if str_eq k j then some v else e) (last_of-reverse ks vs j h))

-- An object literal takes the values of its keys off the stack and leaves a reference to a new
-- object, in which a key that the literal lists more than once has its first value.
pub new_object-first :
    (keys : List Bytes) (vs rest : List DataType) (p : Process)
    → IsStack p
    → same_length keys vs ≡ true
    → values p ≡ reverse vs ++ rest
    → (m : StringMap) × ((j : Bytes) → lookup m j ≡ first_of keys vs j)
      × Leaves
          (record p { heap = alloc_object p.heap m })
          tt
          (object (length p.heap.objects) ∷ rest)
          (new_object_operation keys p)
unfolding new_object_operation lookup
new_object-first keys vs rest p h s e =
    let l =
      pop_properties-Leaves (reverse keys) (reverse vs) rest [] p h (same_length-reverse keys vs s)
        e in
    let m = insert_all (reverse keys) (reverse vs) [] in
    let v = object (length p.heap.objects) in
    let q : Process = record p {
      heap = alloc_object p.heap m;
      stack = l.after.stack;
      sp = l.after.sp;
    } in
    let w =
      push-Leaves v q
        (record { has_slots = l.is_stack.has_slots; in_range = l.is_stack.in_range }) in
    let pushed : Leaves (record p { heap = alloc_object p.heap m }) tt (v ∷ rest) (push v q) =
      record {
        after = w.after;
        returned = w.returned;
        left = w.left ∙ ap (λ us. v ∷ us) l.left;
        is_stack = w.is_stack;
        rest = w.rest;
      } in
    (
      m,
      λ j. lookup-insert_all (reverse keys) (reverse vs) [] j ∙ last_of-reverse keys vs j s,
      rw l.returned (
          subst
            (λ (x : Process).
              Leaves (record p { heap = alloc_object p.heap m }) tt (v ∷ rest)
                (push (object (length x.heap.objects)) (record x { heap = alloc_object x.heap m })))
            (sym l.rest) pushed),
    )
