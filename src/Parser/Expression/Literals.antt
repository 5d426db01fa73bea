-- ===== src/Parser/Expression/Literals.antt =====
-- Array and object literals: arrayLiteralNud and objectLiteralNud of internal/parser/expression.go.
use gescript.Base.{ℕ, zero, suc, Bool, true, false, Option, none, some, List, [], ◌∷◌, ◌++◌, Bytes}
use gescript.Types.Value.{string}
use gescript.Types.Convert.{Strconv}
use gescript.Engine.Code.{OpCode, plain}
use gescript.Parser.Token.{
  Token, gtok_identifier, gtok_literal, gtok_comma, gtok_rb, gtok_rc, gtok_colon,
}
use gescript.Parser.State.{
  array_separator_expected, object_separator_expected, property_name_expected, key_not_text,
  colon_after_name_expected, Parse, parsed, endless, ◌>>=◌, pure, gets, refuse, current, Operand,
}
use gescript.Parser.Expression.Shared.{
  Parsers, advance, or_nil, push_expression, push_value, item_list, item_count, rbp_no_comma,
}

unfoldable pub is_rb : Token → Bool
is_rb gtok_rb = true
is_rb _ = false

unfoldable pub array_literal_nud : Parsers → Parse (Option Operand)
unfolding is_rb
array_literal_nud ps = do
  token ← gets current
  elim token [
    | gtok_rb ↦ advance ps.strconv (push_value (OpCode.new_array (plain 0)))
    | _ ↦ (do
      mask ← item_list ps is_rb array_separator_expected ps.rounds []
      elim mask [
        | none ↦ pure none
        | some marks ↦ advance ps.strconv (push_value (OpCode.new_array (item_count marks)))
      ])
  ]

-- The name of a property: an identifier or a text.
unfoldable pub property_key : Parse (Option Bytes)
property_key p = elim p.lexer.sym.token [
  | gtok_identifier ↦ parsed (some p.lexer.sym.identifier) p
  | gtok_literal ↦ elim p.lexer.sym.literal [
    | string s ↦ parsed (some s) p
    | _ ↦ refuse key_not_text p
  ]
  | _ ↦ refuse property_name_expected p
]

-- Behind a value: a comma and more, or the brace; both are consumed.
unfoldable pub property_separator : Strconv → Parse (Option Bool)
property_separator c p = elim (current p) [
  | gtok_comma ↦ advance c (pure (some true)) p
  | gtok_rc ↦ advance c (pure (some false)) p
  | _ ↦ refuse object_separator_expected p
]

-- The colon behind a name.
unfoldable pub property_colon : Strconv → Parse (Option (Unit {0}))
property_colon c = advance c do
  token ← gets current
  elim token [ gtok_colon ↦ advance c (pure (some tt)) | _ ↦ refuse colon_after_name_expected ]

-- The properties of an object up to its end, the values pushed; the result is their names.
unfoldable pub property_list : Parsers → ℕ → List Bytes → Parse (Option (List Bytes))
property_list ps zero keys = λ p. endless
property_list ps (suc k) keys = do
  key ← property_key
  elim key [
    | none ↦ pure none
    | some name ↦ (do
      colon ← property_colon ps.strconv
      elim colon [
        | none ↦ pure none
        | some _ ↦ (do
          pushed ← push_expression ps rbp_no_comma
          or_nil pushed do
            more ← property_separator ps.strconv
            elim more [
              | none ↦ pure none
              | some true ↦ property_list ps k (keys ++ name ∷ [])
              | some false ↦ pure (some (keys ++ name ∷ []))
            ])
      ])
  ]

unfoldable pub object_literal_nud : Parsers → Parse (Option Operand)
object_literal_nud ps = do
  token ← gets current
  elim token [
    | gtok_rc ↦ advance ps.strconv (push_value (OpCode.new_object []))
    | _ ↦ (do
      keys ← property_list ps ps.rounds []
      elim keys [ none ↦ pure none | some names ↦ push_value (OpCode.new_object names) ])
  ]
