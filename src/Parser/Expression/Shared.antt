-- ===== src/Parser/Expression/Shared.antt =====
-- What the functions of the expression parser share (internal/parser/expression.go).
use gescript.Base.{
  ℕ, zero, suc, Bool, true, false, ◌||◌, Option, none, some, List, [], ◌∷◌, ◌++◌, Bytes, length,
  if◌then◌else◌, str_eq,
}
use gescript.Types.Value.{Ref}
use gescript.Types.Convert.{Strconv}
use gescript.Engine.Code.{OpCode, Count, plain, spread}
use gescript.Parser.Token.{Token, gtok_error, gtok_rp, gtok_identifier, gtok_comma, gtok_ellipsis}
use gescript.Parser.Captures.{Captures, resolve_capture}
use gescript.Parser.Scope.{Variable, BlockContext, find_variable, is_var}
use gescript.Parser.State.{
  Message, Parse, parsed, endless, ◌>>=◌, ◌>>◌, pure, refuse, lex_token, current, push_op_code,
  Operand, value, capture_reference, push_eval_expression,
}

-- The functions that those of the table call back: parseExpression and completeExpression with what
-- is left of the bound, which `rounds` is for the loops, and parseFunctionDecl of statement.go, which
-- returns the place of the function.
pub record Parsers : Type 0 where
  pub strconv : Strconv
  pub rounds : ℕ
  pub parse_expression : ℕ → Parse (Option Operand)
  pub complete_expression : ℕ → Option Operand → Parse (Option Operand)
  pub parse_function_decl : Bool → Bool → List Bytes → Parse (Option Ref)

-- RBP_NO_COMMA
abbrev pub rbp_no_comma : ℕ
rbp_no_comma = 6

unfoldable pub is_error : Token → Bool
is_error gtok_error = true
is_error _ = false

unfoldable pub is_rp : Token → Bool
is_rp gtok_rp = true
is_rp _ = false

unfoldable pub is_identifier : Token → Bool
is_identifier gtok_identifier = true
is_identifier _ = false

-- tok == GTOK_COMMA || tok == GTOK_RP
unfoldable pub is_list : Token → Bool
is_list gtok_comma = true
is_list gtok_rp = true
is_list _ = false

-- if prs.lex() == GTOK_ERROR { return nil }
unfoldable pub advance {ℓ} : {A : Type ℓ} → Strconv → Parse (Option A) → Parse (Option A)
unfolding is_error
advance c next = do token ← lex_token c; if is_error token then pure none else next

-- if !ok { return nil }
abbrev pub or_nil {ℓ} : {A : Type ℓ} → Bool → Parse (Option A) → Parse (Option A)
or_nil ok next = if ok then next else pure none

-- expr := prs.parseExpression(rbp); expr == nil || !prs.pushEvalExpression(expr)
unfoldable pub push_expression : Parsers → ℕ → Parse Bool
push_expression ps rbp = do expr ← ps.parse_expression rbp; push_eval_expression expr

-- prs.pushOpCode(op) with no use of what it returns, and a result that is on the stack.
unfoldable pub push_value : OpCode → Parse (Option Operand)
push_value op = push_op_code op >> pure (some value)

-- The result of resolveCapture, or the operand given for an index of -1.
unfoldable pub capture_or : Operand → Option ℕ × Captures → Parse (Option Operand)
capture_or other (none, captures) p = parsed (some other) (record p { captures = captures })
capture_or other (some i, captures) p =
    parsed (some (capture_reference i)) (record p { captures = captures })

-- The capture of a name that is no variable of the function, where there is an outer scope; or
-- the operand given.
unfoldable pub captured_or : Bytes → Operand → Parse (Option Operand)
unfolding capture_or
captured_or name other p = elim p.captures.outers [
  | [] ↦ parsed (some other) p
  | _ ∷ _ ↦ capture_or other (resolve_capture name p.captures) p
]

-- !varDef.initialized && varDef.declType != DECL_VAR
unfoldable pub is_uninitialized : Variable → Bool
is_uninitialized v = if v.initialized then false else if is_var v.decl_type then false else true

-- varDef.initialized = true, of the variable that the name resolves to
unfoldable pub initialize : Bytes → List Variable → List Variable
initialize name [] = []
initialize name (v ∷ vs) =
    let rest = initialize name vs in
    if str_eq v.name name then record v { initialized = true } ∷ vs else v ∷ rest

unfoldable pub initialize_variable : Bytes → List BlockContext → List BlockContext
initialize_variable name [] = []
initialize_variable name (b ∷ bs) =
    let rest = initialize_variable name bs in
    elim (find_variable b.variables name) [
      | none ↦ b ∷ rest
      | some v ↦ record b { variables = initialize name b.variables } ∷ bs
    ]

-- Whether there is a spread operator before an item; none is an error of the lexer.
unfoldable pub spread_mark : Strconv → Parse (Option Bool)
spread_mark c p = elim (current p) [
  | gtok_ellipsis ↦ advance c (pure (some true)) p
  | _ ↦ parsed (some false) p
]

-- After an item: a comma and more, or the end of the list, which stays the current token.
unfoldable pub separator : Strconv → (Token → Bool) → Message → Parse (Option Bool)
separator c closes msg p = elim (current p) [
  | gtok_comma ↦ advance c (pure (some true)) p
  | token ↦ if closes token then parsed (some false) p else refuse msg p
]

-- The items of an array or of an argument list up to its end, each pushed; the result is the mask
-- of the spread ones.
unfoldable pub item_list :
    Parsers → (Token → Bool) → Message → ℕ → List Bool → Parse (Option (List Bool))
item_list ps closes msg zero mask = λ p. endless
item_list ps closes msg (suc k) mask = do
  is_spread ← spread_mark ps.strconv
  elim is_spread [
    | none ↦ pure none
    | some marked ↦ do
      pushed ← push_expression ps rbp_no_comma
      or_nil pushed do
        more ← separator ps.strconv closes msg
        elim more [
          | none ↦ pure none
          | some true ↦ item_list ps closes msg k (mask ++ marked ∷ [])
          | some false ↦ pure (some (mask ++ marked ∷ []))
        ]
  ]

has_spread : List Bool → Bool
has_spread [] = false
has_spread (b ∷ bs) = b || has_spread bs

-- OpData of a call or an array: the number of items, with the mask if one is spread.
unfoldable pub item_count : List Bool → Count
unfolding has_spread
item_count mask = if has_spread mask then spread (length mask) mask else plain (length mask)
