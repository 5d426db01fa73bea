-- ===== src/Parser/Expression/Parens.antt =====
-- Parentheses: parenNud of internal/parser/expression.go, for a group, a parameter list of an arrow
-- function or a list of names, and parseExpressionWithIdentifier.
use gescript.Base.{
  ℕ, zero, suc, Bool, true, false, Option, none, some, List, [], ◌∷◌, ◌++◌, Bytes, if◌then◌else◌,
}
use gescript.Types.Convert.{Strconv}
use gescript.Engine.Code.{OpCode}
use gescript.Parser.Token.{Token, gtok_rp, gtok_arrow, gtok_identifier, gtok_comma}
use gescript.Parser.Scope.{resolve_variable}
use gescript.Parser.State.{
  not_initialized, empty_parentheses, identifier_expected_in_list, list_not_closed,
  parenthesis_expected, Parse, endless, ◌>>=◌, ◌>>◌, pure, gets, refuse, lex_token, current,
  push_op_code, Operand, global_reference,
}
use gescript.Parser.Expression.Shared.{
  Parsers, advance, is_uninitialized, is_rp, is_identifier, is_list,
}
use gescript.Parser.Expression.Prefix.{parse_arrow_function_body, variable_or, identifier_nud}

-- The further names of a list, as long as the token is a comma; the parenthesis ends it.
unfoldable pub variable_list : Strconv → ℕ → Token → List Bytes → Parse (Option (List Bytes))
variable_list c zero token names = λ p. endless
variable_list c (suc k) gtok_comma names = do
  next ← lex_token c
  elim next [
    | gtok_identifier ↦ (do
      name ← gets λ p. p.lexer.sym.identifier
      after ← lex_token c
      variable_list c k after (names ++ name ∷ []))
    | _ ↦ refuse identifier_expected_in_list
  ]
variable_list c (suc k) gtok_rp names = pure (some names)
variable_list c (suc k) _ names = refuse list_not_closed

-- The last of the names; the others are loaded and discarded.
unfoldable pub comma_names : Bytes → List Bytes → Parse (Option Bytes)
unfolding is_uninitialized
comma_names name [] = pure (some name)
comma_names name (next ∷ names) = do
  found ← gets λ p. resolve_variable p.block name
  elim found [
    | none ↦
        push_op_code (OpCode.load_global name)
        >> push_op_code OpCode.pop_value
        >> comma_names next names
    | some v ↦
        if is_uninitialized v
        then refuse (not_initialized name)
        else push_op_code (OpCode.load_variable v.slot_index)
          >> push_op_code OpCode.pop_value
          >> comma_names next names
  ]

-- A list of names in parentheses that is no parameter list: its last is the result.
unfoldable pub name_list_result : List Bytes → Parse (Option Operand)
name_list_result [] = pure none
name_list_result (name ∷ names) = do
  last ← comma_names name names
  elim last [
    | none ↦ pure none
    | some ident ↦ (do
      found ← gets λ p. resolve_variable p.block ident
      variable_or ident found (pure (some (global_reference ident))))
  ]

unfoldable pub is_arrow : Token → Bool
is_arrow gtok_arrow = true
is_arrow _ = false

-- An arrow makes what stood in parentheses a parameter list.
unfoldable pub arrow_or : Parsers → List Bytes → Parse (Option Operand) → Parse (Option Operand)
unfolding is_arrow
arrow_or ps names other = do
  token ← gets current
  if is_arrow token then lex_token ps.strconv >> parse_arrow_function_body ps names else other

-- The end of an expression in parentheses.
unfoldable pub close_paren : Strconv → Option Operand → Parse (Option Operand)
unfolding is_rp
close_paren c none = pure none
close_paren c (some expr) = do
  token ← gets current
  if is_rp token then advance c (pure (some expr)) else refuse parenthesis_expected

-- A list of names, of which the first is read and the token is behind it.
unfoldable pub paren_names : Parsers → Bytes → Token → Parse (Option Operand)
paren_names ps ident token = do
  names ← variable_list ps.strconv ps.rounds token (ident ∷ [])
  elim names [
    | none ↦ pure none
    | some listed ↦ advance ps.strconv (arrow_or ps listed (name_list_result listed))
  ]

-- parseExpressionWithIdentifier(0, ident)
unfoldable pub parse_expression_with_identifier : Parsers → ℕ → Bytes → Parse (Option Operand)
parse_expression_with_identifier ps rbp name = do
  left ← identifier_nud name
  elim left [ none ↦ pure none | some operand ↦ ps.complete_expression rbp (some operand) ]

-- A list of names, or an expression that begins with a name.
unfoldable pub paren_identifier : Parsers → Bytes → Parse (Option Operand)
unfolding is_list
paren_identifier ps ident = do
  token ← lex_token ps.strconv
  if is_list token
      then paren_names ps ident token
      else parse_expression_with_identifier ps 0 ident >>= close_paren ps.strconv

unfoldable pub paren_nud : Parsers → Parse (Option Operand)
unfolding is_rp is_identifier
paren_nud ps = do
  sym ← gets λ p. p.lexer.sym
  if is_rp sym.token
      then advance ps.strconv (arrow_or ps [] (refuse empty_parentheses))
      else if is_identifier sym.token
      then paren_identifier ps sym.identifier
      else ps.parse_expression 0 >>= close_paren ps.strconv
