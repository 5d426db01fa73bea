-- ===== src/Parser/Expression/Code.antt =====
-- The code of a tree: what it computes before the operand that is left, and that operand.
use gescript.Base.{
  ℕ, suc, ◌+◌, ◌≡◌, false, Option, none, some, List, [], ◌∷◌, ◌++◌, Bytes, codes, str_eq,
  if◌then◌else◌, length,
}
use gescript.Types.Value.{undefined}
use gescript.Engine.Code.{OpCode}
use gescript.Parser.Scope.{Variable, BlockContext, resolve_variable}
use gescript.Parser.State.{
  Operand, literal, value, identifier, global_reference, array_reference, member_reference,
  capture_reference,
}
use gescript.Parser.Expression.Shared.{is_uninitialized}
use gescript.Parser.Expression.Prefix.{unary_op}
use gescript.Parser.Expression.Infix.{infix_op}
use gescript.Parser.Expression.Syntax.{
  Expr, constant, name, prefix, binary, both, either, choice, group, index, member,
}

abbrev pub case_code : Option OpCode → List OpCode
case_code none = []
case_code (some op) = op ∷ []

abbrev pub variable_code : Option Variable → List OpCode
variable_code none = []
variable_code (some v) = OpCode.load_variable v.slot_index ∷ []

module _ (block : List BlockContext) where
  -- The operand of a name in the program's own code.
  abbrev pub named : Bytes → Operand
  named n =
      if str_eq n (codes "undefined")
      then literal undefined
      else elim (resolve_variable block n) [ none ↦ global_reference n | some v ↦ identifier n ]

  -- The code that pushes an operand.
  unfoldable pub late : Operand → List OpCode
  late (literal v) = OpCode.push_literal_value v ∷ []
  late value = []
  late (identifier n) = variable_code (resolve_variable block n)
  late (global_reference n) = OpCode.load_global n ∷ []
  late array_reference = OpCode.get_element ∷ []
  late (member_reference n) = OpCode.get_property n ∷ []
  late (capture_reference i) = OpCode.load_capture i ∷ []

  unfoldable pub operand : Expr → Operand
  operand (constant v) = literal v
  operand (name n) = named n
  operand (group a) = operand a
  operand (index a b) = array_reference
  operand (member a n) = member_reference n
  operand _ = value

  -- The code of a tree at a place, before its operand is pushed.
  unfoldable pub early : ℕ → Expr → List OpCode
  unfolding operand late
  early at (constant v) = []
  early at (name n) = []
  early at (group a) = early at a
  early at (member a n) = early at a ++ late (operand a)
  early at (prefix t a) = early at a ++ late (operand a) ++ case_code (unary_op t)
  early at (binary t a b) =
      let left = early at a ++ late (operand a) in
      left ++ (early (at + length left) b ++ late (operand b)) ++ case_code (infix_op t)
  early at (both t a b) =
      let left = early at a ++ late (operand a) in
      let right = early (suc (at + length left)) b ++ late (operand b) in
      left ++ (OpCode.jump_if_false_or_pop (suc (at + length left) + length right) ∷ right)
  early at (either t a b) =
      let left = early at a ++ late (operand a) in
      let right = early (suc (at + length left)) b ++ late (operand b) in
      left ++ (OpCode.jump_if_true_or_pop (suc (at + length left) + length right) ∷ right)
  early at (choice a b d) =
      let test = early at a ++ late (operand a) in
      let yes = early (suc (at + length test)) b ++ late (operand b) in
      let other = suc (suc (at + length test) + length yes) in
      let no = early other d ++ late (operand d) in
      test ++ (OpCode.jump_if_false other ∷ (yes ++ (OpCode.jump (other + length no) ∷ no)))
  early at (index a b) =
      let target = early at a ++ late (operand a) in
      target ++ (early (at + length target) b ++ late (operand b))

  -- The names of a tree that are variables are initialized.
  abbrev pub AreInitialized : Expr → Type 0
  AreInitialized (constant v) = Unit
  AreInitialized (name n) =
      (v : Variable) → resolve_variable block n ≡ some v → is_uninitialized v ≡ false
  AreInitialized (prefix t a) = AreInitialized a
  AreInitialized (binary t a b) = AreInitialized a × AreInitialized b
  AreInitialized (both t a b) = AreInitialized a × AreInitialized b
  AreInitialized (either t a b) = AreInitialized a × AreInitialized b
  AreInitialized (choice a b d) = AreInitialized a × AreInitialized b × AreInitialized d
  AreInitialized (group a) = AreInitialized a
  AreInitialized (index a b) = AreInitialized a × AreInitialized b
  AreInitialized (member a n) = AreInitialized a

abbrev pub full : List BlockContext → ℕ → Expr → List OpCode
full block at e = early block at e ++ late block (operand block e)
