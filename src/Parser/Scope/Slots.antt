-- ===== src/Parser/Scope/Slots.antt =====
-- Which slot a name leads to.
use gescript.Base.{
  ℕ, ◌+◌, ◌<◌, ◌≤◌, ◌≡◌, ◌∙◌, refl, sym, ap, Bool, false, Option, none, some, List, [], ◌∷◌, Bytes,
  str_eq, leb, if◌then◌else◌, arith, Bool-cases, Option-cases, inl, inr, ◌⊎◌, str_eq_refl,
}
use gescript.Parser.Scope.{
  VarDeclType, decl_var, Variable, BlockContext, is_var, find_variable, next_slot, new_block,
  new_variable, add_variable, define_variable, resolve_variable, declare, in_root, in_head,
  below_head, decl_let,
}

-- The slots of the variables fall from `hi` to `lo`, the newest having the highest.
abbrev pub SlotsFall : ℕ → ℕ → List Variable → Type 0
SlotsFall lo hi [] = lo ≤ hi
SlotsFall lo hi (v ∷ vs) = (v.slot_index < hi) × SlotsFall lo v.slot_index vs

-- Each block has the slots from its base on, above those of its parents.
abbrev pub IsScope : List BlockContext → Type 0
IsScope [] = Unit
IsScope (b ∷ bs) =
    SlotsFall b.slot_base (b.slot_base + b.slot_count) b.variables
    × (next_slot bs ≤ b.slot_base)
    × IsScope bs

SlotsFall-le : (vs : List Variable) (lo hi : ℕ) → SlotsFall lo hi vs → lo ≤ hi
SlotsFall-le [] lo hi h = h
SlotsFall-le (v ∷ vs) lo hi (at, h) = omega (arith, SlotsFall-le vs lo v.slot_index h)

find_variable-cons :
    (x : Variable) (vs : List Variable) (a : Bytes) (v : Variable)
    → find_variable (x ∷ vs) a ≡ some v
    → (x ≡ v) ⊎ (find_variable vs a ≡ some v)
unfolding find_variable
find_variable-cons x vs a v e = elim (Bool-cases (str_eq x.name a)) [
  | inl y ↦ inl (ground arith)
  | inr n ↦ inr (ground arith)
]

find_variable-SlotsFall :
    (vs : List Variable) (lo hi : ℕ) (a : Bytes) (v : Variable)
    → SlotsFall lo hi vs
    → find_variable vs a ≡ some v
    → (lo ≤ v.slot_index) × (v.slot_index < hi)
unfolding find_variable
find_variable-SlotsFall [] lo hi a v h e = absurd (cc)
find_variable-SlotsFall (x ∷ vs) lo hi a v (at, h) e = elim (find_variable-cons x vs a v e) [
  | inl y ↦
      let same = ap (λ (z : Variable). z.slot_index) y in
      let le = SlotsFall-le vs lo x.slot_index h in (omega arith, omega arith)
  | inr f ↦
      let (above, below) = find_variable-SlotsFall vs lo x.slot_index a v h f in
      (above, omega arith)
]

resolve_variable-cons :
    (c : BlockContext) (bs : List BlockContext) (a : Bytes) (v : Variable)
    → resolve_variable (c ∷ bs) a ≡ some v
    → (find_variable c.variables a ≡ some v) ⊎ (resolve_variable bs a ≡ some v)
unfolding resolve_variable
resolve_variable-cons c bs a v e = elim (Option-cases (find_variable c.variables a)) [
  | inl n ↦ inr (ground arith)
  | inr (u, s) ↦ inl (ground arith)
]

resolve_variable-below :
    (bs : List BlockContext) (a : Bytes) (v : Variable)
    → IsScope bs
    → resolve_variable bs a ≡ some v
    → v.slot_index < next_slot bs
unfolding resolve_variable next_slot
resolve_variable-below [] a v h e = absurd (cc)
resolve_variable-below (c ∷ bs) a v (fall, above, h) e = elim (resolve_variable-cons c bs a v e) [
  | inl f ↦
      (find_variable-SlotsFall c.variables c.slot_base (c.slot_base + c.slot_count) a v fall f).1
  | inr r ↦
      let below = resolve_variable-below bs a v h r in
      let le = SlotsFall-le c.variables c.slot_base (c.slot_base + c.slot_count) fall in omega arith
]

-- A block that is opened has its slots above those of the others.
pub new_block-IsScope : (bs : List BlockContext) → IsScope bs → IsScope (new_block bs ∷ bs)
unfolding new_block
new_block-IsScope bs h = (omega arith, omega arith, h)

define_variable-new_variable :
    (name : Bytes) (t : VarDeclType) (b : BlockContext) (n : ℕ)
    → find_variable b.variables name ≡ none
    → define_variable name t b n ≡ some (add_variable b n (new_variable name t b))
unfolding define_variable
define_variable-new_variable name t b n f = rw (f, define_variable) refl

-- A let or const declaration of a name that is new in the innermost block is accepted: the name
-- then leads to the new variable, the scope still has its slots in order, and the function has room
-- for the slot.
pub declare-IsScope :
    (name : Bytes) (t : VarDeclType) (b : BlockContext) (bs : List BlockContext) (n : ℕ)
    → is_var t ≡ false
    → find_variable b.variables name ≡ none
    → IsScope (b ∷ bs)
    → (v : Variable) × (cs : List BlockContext) × (m : ℕ) × (declare name t (b ∷ bs) n
        ≡ some (v, cs, m))
      × IsScope cs
      × (resolve_variable cs name ≡ some v)
      × (v.slot_index < m)
      × (n ≤ m)
unfolding declare in_head define_variable add_variable new_variable resolve_variable find_variable
declare-IsScope name t b bs n k f (fall, above, h) =
    let v = new_variable name t b in
    let b' : BlockContext = record b {
      variables = v ∷ b.variables;
      slot_count = b.slot_count + 1;
    } in
    let used = b.slot_base + (b.slot_count + 1) in
    (
      v,
      b' ∷ bs,
      if leb used n then n else used,
      ap
            (λ (c : Bool).
              if c then in_root name t (b ∷ bs) n else in_head bs (define_variable name t b n))
            k
          ∙ ap (in_head bs) (define_variable-new_variable name t b n f),
      ((omega arith, fall), above, h),
      rw (str_eq_refl name) refl,
      ground arith,
      ground arith,
    )

-- A variable found under a new one of the innermost block.
resolve_variable-new :
    (v : Variable) (b : BlockContext) (bs : List BlockContext) (count : ℕ) (seen : Bytes)
    (w : Variable)
    → resolve_variable (b ∷ bs) seen ≡ some w
    → resolve_variable (record b { variables = v ∷ b.variables; slot_count = count } ∷ bs) seen
      ≡ some (if str_eq v.name seen then v else w)
unfolding resolve_variable find_variable
resolve_variable-new v b bs count seen w e =
    let found : Bool → Option Variable = λ is_new.
      elim (if is_new then some v else find_variable b.variables seen) [
        | none ↦ resolve_variable bs seen
        | some u ↦ some u
      ] in
    let chosen : Bool → Option Variable = λ is_new. some (if is_new then v else w) in
    elim (Bool-cases (str_eq v.name seen)) [
      | inl y ↦ ap found y ∙ ap chosen (sym y)
      | inr n ↦ ap found n ∙ e ∙ ap chosen (sym n)
    ]

-- In a scope in which each block has its slots above those of its parents, a let or const
-- declaration of a name that is new in the innermost block gets a slot above that of every
-- variable in sight, hides a variable of the name in an outer block, and leaves what every other
-- name leads to and the outer blocks as they were.
pub declare-shadows :
    (name seen : Bytes) (t : VarDeclType) (b : BlockContext) (bs : List BlockContext) (n : ℕ)
    (w : Variable)
    → is_var t ≡ false
    → find_variable b.variables name ≡ none
    → IsScope (b ∷ bs)
    → resolve_variable (b ∷ bs) seen ≡ some w
    → (v : Variable) × (b' : BlockContext) × (m : ℕ) × (declare name t (b ∷ bs) n
        ≡ some (v, b' ∷ bs, m))
      × (resolve_variable (b' ∷ bs) seen ≡ some (if str_eq name seen then v else w))
      × (w.slot_index < v.slot_index)
unfolding declare in_head define_variable add_variable new_variable next_slot
declare-shadows name seen t b bs n w k f scope e =
    let v = new_variable name t b in
    let used = b.slot_base + (b.slot_count + 1) in
    (
      v,
      record b { variables = v ∷ b.variables; slot_count = b.slot_count + 1 },
      (if leb used n then n else used),
      ap
            (λ (c : Bool).
              if c then in_root name t (b ∷ bs) n else in_head bs (define_variable name t b n))
            k
          ∙ ap (in_head bs) (define_variable-new_variable name t b n f),
      resolve_variable-new v b bs (b.slot_count + 1) seen w e,
      resolve_variable-below (b ∷ bs) seen w scope e,
    )

-- In a block whose first variable is a let, a var that is new to the function's block, which
-- encloses it, gets the slot of that let: the parser puts both in one slot.
pub declare-shares_slot :
    (x y : Bytes) (root : BlockContext) (n : ℕ)
    → find_variable root.variables y ≡ none
    → (v w : Variable) × (bs cs : List BlockContext) × (m k : ℕ) × (declare x decl_let
          (new_block (root ∷ []) ∷ root ∷ [])
          n
        ≡ some (v, bs, m))
      × (declare y decl_var bs m ≡ some (w, cs, k))
      × (v.slot_index ≡ w.slot_index)
unfolding declare in_root in_head below_head is_var add_variable new_variable new_block next_slot
    find_variable
declare-shares_slot x y root n f =
    let child = new_block (root ∷ []) in
    let first = add_variable child n (new_variable x decl_let child) in
    let second = add_variable root first.2 (new_variable y decl_var root) in
    (
      first.0,
      second.0,
      first.1 ∷ root ∷ [],
      first.1 ∷ second.1 ∷ [],
      first.2,
      second.2,
      rw (define_variable-new_variable x decl_let child n refl) refl,
      rw (define_variable-new_variable y decl_var root first.2 f) refl,
      omega arith,
    )
