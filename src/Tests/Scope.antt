-- ===== src/Tests/Scope.antt =====
-- The slots of declared variables at concrete inputs.
use gescript.Base.{true, false, ℕ, ◌<◌, ◌≤◌, ◌≡◌, refl, arith, some, List, [], ◌∷◌, codes}
use gescript.Parser.Scope.{
  decl_let, decl_var, Variable, BlockContext, new_block, declare, resolve_variable, find_variable,
  is_var, next_slot,
}
use gescript.Parser.Scope.Slots.{IsScope, declare-shadows, declare-IsScope, declare-shares_slot}

abbrev pub a_var : Variable
a_var = record { name = codes "a"; decl_type = decl_var; slot_index = 0; initialized = true }

abbrev b_let : Variable
b_let = record { name = codes "b"; decl_type = decl_let; slot_index = 1; initialized = false }

abbrev pub outer_block : BlockContext
outer_block = record { variables = a_var ∷ []; slot_base = 0; slot_count = 1 }

abbrev inner_block : BlockContext
inner_block = record { variables = b_let ∷ []; slot_base = 1; slot_count = 1 }

two_blocks-IsScope : IsScope (inner_block ∷ outer_block ∷ [])
unfolding next_slot
two_blocks-IsScope =
    ((omega arith, omega arith), omega arith, ((omega arith, omega arith), omega arith, tt))

declare-shadows_example :
    (v : Variable) × (b' : BlockContext) × (m : ℕ) × (declare
        (codes "a")
        decl_let
        (inner_block ∷ outer_block ∷ [])
        2
      ≡ some (v, b' ∷ outer_block ∷ [], m))
    × (resolve_variable (b' ∷ outer_block ∷ []) (codes "a") ≡ some v)
    × (0 < v.slot_index)
unfolding resolve_variable find_variable is_var
declare-shadows_example =
    declare-shadows (codes "a") (codes "a") decl_let inner_block (outer_block ∷ []) 2 a_var refl
      refl two_blocks-IsScope refl

declare-IsScope_example :
    (v : Variable) × (cs : List BlockContext) × (m : ℕ) × (declare
        (codes "c")
        decl_let
        (inner_block ∷ outer_block ∷ [])
        2
      ≡ some (v, cs, m))
    × IsScope cs
    × (resolve_variable cs (codes "c") ≡ some v)
    × (v.slot_index < m)
    × (2 ≤ m)
unfolding is_var find_variable
declare-IsScope_example =
    declare-IsScope (codes "c") decl_let inner_block (outer_block ∷ []) 2 refl refl
      two_blocks-IsScope

declare-shares_slot_example :
    (v w : Variable) × (bs cs : List BlockContext) × (m k : ℕ) × (declare
        (codes "x")
        decl_let
        (new_block (outer_block ∷ []) ∷ outer_block ∷ [])
        1
      ≡ some (v, bs, m))
    × (declare (codes "y") decl_var bs m ≡ some (w, cs, k))
    × (v.slot_index ≡ w.slot_index)
unfolding find_variable
declare-shares_slot_example = declare-shares_slot (codes "x") (codes "y") outer_block 1 refl
