-- ===== src/Engine/Ops/Closure/Sharing.antt =====
-- The cell of a captured local, as its function and the closures use it.
use mathlib.Core.Path.{subst, sym}
use gescript.Base.{
  ℕ, zero, suc, ◌<◌, ◌≡◌, ◌∙◌, refl, ap, false, some, List, [], ◌∷◌, arith, length, get_or, set,
  length-set,
}
use gescript.Word.{Word}
use gescript.Types.Value.{DataType, nil, Ref}
use gescript.Engine.Heap.{holds, empty}
use gescript.Engine.Process.{Process, ok, push}
use gescript.Engine.Process.Stack.{IsStack, push-Leaves}
use gescript.Engine.Ops.Variable.{
  invalid_slot, local_cell, cell_at, read_cell, write_cell, load_variable_operation, store_variable,
  update_slot, load_slot, store_slot,
}
use gescript.Engine.Ops.Closure.{cell_value}

-- The slot has a cell, which holds a value.
pub record HasCell (p : Process) (slot : Word) (r : Ref) (v : DataType) : Type 0 where
  pub in_locals : invalid_slot p slot ≡ false
  pub at_slot : local_cell p slot ≡ some r
  pub held : cell_at p.heap r ≡ holds v

get_or-set_self {ℓ} :
    {A : Type ℓ} (xs : List A) (n : ℕ) (v d : A) → n < length xs → get_or (set xs n v) n d ≡ v
get_or-set_self [] n v d h = elim h [ ]
get_or-set_self (x ∷ xs) zero v d h = refl
get_or-set_self (x ∷ xs) (suc n) v d h = get_or-set_self xs n v d (omega arith)

load_slot-holds :
    (p : Process) (slot : Word) (r : Ref) (v : DataType)
    → cell_at p.heap r ≡ holds v
    → load_slot (some r) slot p ≡ push v p
unfolding load_slot read_cell
load_slot-holds p slot r v e = rw (e, load_slot, read_cell)

store_slot-holds :
    (p : Process) (slot : Word) (r : Ref) (v w : DataType)
    → cell_at p.heap r ≡ holds v
    → store_slot (some r) slot w p
      ≡ ok tt (record p { heap = record p.heap { cells = set p.heap.cells r (holds w) } })
unfolding store_slot write_cell
store_slot-holds p slot r v w e = rw (e, store_slot, write_cell)

-- A load of a captured local reads the cell, whatever the slot itself holds.
pub load-HasCell :
    (p : Process) (slot : Word) (r : Ref) (v : DataType)
    → HasCell p slot r v
    → load_variable_operation slot p ≡ push v p
unfolding load_variable_operation
load-HasCell p slot r v h =
    rw h.in_locals (ap (λ c. load_slot c slot p) h.at_slot ∙ load_slot-holds p slot r v h.held)

-- What a closure stores through the cell is what the enclosing function loads.
pub load-write_cell :
    (p : Process) (slot : Word) (r : Ref) (v w : DataType)
    → HasCell p slot r v
    → r < length p.heap.cells
    → (q : Process) × (write_cell r w p ≡ ok tt q) × (load_variable_operation slot q ≡ push w q)
unfolding write_cell
load-write_cell p slot r v w h fits =
    let q : Process = record p { heap = record p.heap { cells = set p.heap.cells r (holds w) } } in
    (
      q,
      rw (h.held, write_cell),
      load-HasCell q slot r w (record {
        in_locals = h.in_locals;
        at_slot = h.at_slot;
        held = get_or-set_self p.heap.cells r (holds w) empty fits;
      }),
    )

-- What the enclosing function stores in the local is what a closure with the cell reads.
pub cell_value-store_variable :
    (p : Process) (slot : Word) (r : Ref) (v w : DataType)
    → HasCell p slot r v
    → r < length p.heap.cells
    → (q : Process) × (store_variable slot w p ≡ ok tt q) × (cell_value q.heap (some r) ≡ w)
unfolding store_variable cell_value
cell_value-store_variable p slot r v w h fits =
    let (q, e, l) = load-write_cell p slot r v w h fits in
    (
      record p { heap = record p.heap { cells = set p.heap.cells r (holds w) } },
      rw h.in_locals
          (ap (λ c. store_slot c slot w p) h.at_slot ∙ store_slot-holds p slot r v w h.held),
      rw (get_or-set_self p.heap.cells r (holds w) empty fits, cell_value),
    )

-- The increments and decrements of a local leave its cell alone: where the local is captured, a
-- load after one of them pushes the value from before.
pub load-update_slot :
    (f : DataType → DataType) (shown : DataType → DataType → DataType) (p : Process) (slot : Word)
    (r : Ref) (v : DataType)
    → IsStack p
    → HasCell p slot r v
    → (q : Process) × (update_slot f shown slot p ≡ ok tt q)
      × (load_variable_operation slot q ≡ push v q)
load-update_slot f shown p slot r v h c =
    let old = get_or p.locals slot nil in
    let p' : Process = record p { locals = set p.locals slot (f old) } in
    let l =
      push-Leaves (shown old (f old)) p'
        (record { has_slots = h.has_slots; in_range = h.in_range }) in
    let c' : HasCell (record p' { stack = l.after.stack; sp = l.after.sp }) slot r v = record {
      in_locals = rw (length-set p.locals slot (f old)) c.in_locals;
      at_slot = c.at_slot;
      held = c.held;
    } in
    (
      l.after,
      rw c.in_locals l.returned,
      load-HasCell l.after slot r v (subst (λ x. HasCell x slot r v) (sym l.rest) c'),
    )
