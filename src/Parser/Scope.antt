-- ===== src/Parser/Scope.antt =====
-- The blocks and variables of internal/parser/parser.go, and the declaration of a variable in
-- internal/parser/statement.go. The map of a block is a list of its variables, the newest first;
-- the chain of a block and its parents is a list, the innermost first.
pub mod Slots
use gescript.Base.{
  ℕ, ◌+◌, Bool, true, false, Option, none, some, List, [], ◌∷◌, Bytes, str_eq, leb, if◌then◌else◌,
}

pub data VarDeclType : Type 0 where
  decl_var decl_let decl_const : VarDeclType

-- isCapture and captureIdx, which the functions here leave at zero, are left out.
pub record Variable : Type 0 where
  pub name : Bytes
  pub decl_type : VarDeclType
  pub slot_index : ℕ
  pub initialized : Bool

pub record BlockContext : Type 0 where
  pub variables : List Variable
  pub slot_base : ℕ
  pub slot_count : ℕ

unfoldable pub is_var : VarDeclType → Bool
is_var decl_var = true
is_var _ = false

-- blk.variables[name]
unfoldable pub find_variable : List Variable → Bytes → Option Variable
find_variable [] name = none
find_variable (v ∷ vs) name = if str_eq v.name name then some v else find_variable vs name

-- blk.slotBase + blk.slotCount of the innermost block
unfoldable pub next_slot : List BlockContext → ℕ
next_slot [] = 0
next_slot (b ∷ bs) = b.slot_base + b.slot_count

-- newBlock(parent)
unfoldable pub new_block : List BlockContext → BlockContext
new_block parents = record { variables = []; slot_base = next_slot parents; slot_count = 0 }

unfoldable pub new_variable : Bytes → VarDeclType → BlockContext → Variable
new_variable name decl_type blk = record {
  name = name;
  decl_type = decl_type;
  slot_index = blk.slot_base + blk.slot_count;
  initialized = is_var decl_type;
}

-- A second declaration in the block: only of a var as a var.
unfoldable pub redeclare :
    VarDeclType → BlockContext → ℕ → Variable → Option (Variable × BlockContext × ℕ)
redeclare decl_type blk var_count existing =
    if is_var decl_type
    then (if is_var existing.decl_type then some (existing, blk, var_count) else none)
    else none

unfoldable pub add_variable : BlockContext → ℕ → Variable → Variable × BlockContext × ℕ
add_variable blk var_count vr =
    let used = blk.slot_base + (blk.slot_count + 1) in
    (
      vr,
      record blk { variables = vr ∷ blk.variables; slot_count = blk.slot_count + 1 },
      if leb used var_count then var_count else used,
    )

-- blk.defineVariable(prs, name, declType); the number is prs.body.VarCount, and `none` the refusal.
unfoldable pub define_variable :
    Bytes → VarDeclType → BlockContext → ℕ → Option (Variable × BlockContext × ℕ)
define_variable name decl_type blk var_count = elim (find_variable blk.variables name) [
  | none ↦ some (add_variable blk var_count (new_variable name decl_type blk))
  | some existing ↦ redeclare decl_type blk var_count existing
]

-- blk.resolveVariable(name)
unfoldable pub resolve_variable : List BlockContext → Bytes → Option Variable
resolve_variable [] name = none
resolve_variable (b ∷ bs) name =
    let further = resolve_variable bs name in
    elim (find_variable b.variables name) [ none ↦ further | some v ↦ some v ]

unfoldable pub in_head :
    List BlockContext
    → Option (Variable × BlockContext × ℕ)
    → Option (Variable × List BlockContext × ℕ)
in_head bs none = none
in_head bs (some (v, b, n)) = some (v, b ∷ bs, n)

unfoldable pub below_head :
    BlockContext
    → Option (Variable × List BlockContext × ℕ)
    → Option (Variable × List BlockContext × ℕ)
below_head b none = none
below_head b (some (v, bs, n)) = some (v, b ∷ bs, n)

-- targetBlock = prs.rootBlock, the outermost of the chain
unfoldable pub in_root :
    Bytes → VarDeclType → List BlockContext → ℕ → Option (Variable × List BlockContext × ℕ)
in_root name decl_type [] n = none
in_root name decl_type (b ∷ []) n = in_head [] (define_variable name decl_type b n)
in_root name decl_type (b ∷ c ∷ bs) n = below_head b (in_root name decl_type (c ∷ bs) n)

-- A variable statement's definition of a name: a var in the block of the function, others in the
-- innermost block.
unfoldable pub declare :
    Bytes → VarDeclType → List BlockContext → ℕ → Option (Variable × List BlockContext × ℕ)
declare name decl_type [] n = none
declare name decl_type (b ∷ bs) n =
    if is_var decl_type
    then in_root name decl_type (b ∷ bs) n
    else in_head bs (define_variable name decl_type b n)
