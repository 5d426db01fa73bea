-- ===== src/Parser/State.antt =====
-- The parser struct of internal/parser/parser.go, without what only statements use, and its
-- operations as actions of a monad: an action returns, or panics, or reaches the bound of a loop.
use gescript.Base.{
  ℕ, Bool, true, false, Option, none, some, List, [], ◌∷◌, ◌++◌, Bytes, length, set,
}
use gescript.Types.Value.{DataType}
use gescript.Types.Convert.{Strconv}
use gescript.Engine.Code.{OpCode, ScriptFunction}
use gescript.Parser.Scope.{Variable, BlockContext, resolve_variable}
use gescript.Parser.Token.{Token, gtok_error, Lexer}
use gescript.Parser.Lexer.{Lexed, lexed, lex_error, slice_panic, out_of_fuel, lex}
use gescript.Parser.Lexer.Quoted.{LexError}
use gescript.Parser.Captures.{Captures}

-- The messages of addError and of the lexer.
pub data Message : Type 0 where
  lexer_message : LexError → Message
  undefined_variable cannot_reassign cannot_modify not_initialized : Bytes → Message
  invalid_arrow invalid_assignment invalid_operand invalid_postfix_operand : Message
  empty_parentheses identifier_expected_in_list list_not_closed parenthesis_expected : Message
  array_separator_expected object_separator_expected bracket_expected : Message
  property_name_expected key_not_text colon_after_name_expected : Message
  argument_separator_expected ternary_colon_expected : Message
  unexpected_symbol left_syntax_error : Bytes → Message

-- ParserError
pub record ParserError : Type 0 where
  pub line_number : ℕ
  pub error_msg : Message

-- `code` is that of prs.body, `block` the chain of prs.block, and the captures hold the chain of
-- prs.outerScope. The functions that were parsed are in a list, since an operation has a pointer.
pub record Parser : Type 0 where
  pub lexer : Lexer
  pub code : List OpCode
  pub var_count : ℕ
  pub block : List BlockContext
  pub captures : Captures
  pub functions : List ScriptFunction
  pub errors : List ParserError

pub data Parsed {ℓ} (A : Type ℓ) : Type ℓ where
  parsed : A → Parser → Parsed A
  panicked endless : Parsed A

abbrev pub Parse {ℓ} : Type ℓ → Type ℓ
Parse A = Parser → Parsed A

abbrev pub continue {ℓ κ} : {A : Type ℓ} {B : Type κ} → Parsed A → (A → Parse B) → Parsed B
continue (parsed a p) f = f a p
continue panicked f = panicked
continue endless f = endless

infixl 5 ◌>>=◌ ◌>>◌
abbrev pub ◌>>=◌ {ℓ κ} : {A : Type ℓ} {B : Type κ} → Parse A → (A → Parse B) → Parse B
◌>>=◌ m f p = continue (m p) f

abbrev pub ◌>>◌ {ℓ κ} : {A : Type ℓ} {B : Type κ} → Parse A → Parse B → Parse B
m >> k = m >>= λ _. k

abbrev pub pure {ℓ} : {A : Type ℓ} → A → Parse A
pure a p = parsed a p

abbrev pub gets {ℓ} : {A : Type ℓ} → (Parser → A) → Parse A
gets f p = parsed (f p) p

abbrev pub modify : (Parser → Parser) → Parse (Unit {0})
modify f p = parsed tt (f p)

-- prs.addError(msg)
unfoldable pub add_error : Message → Parse (Unit {0})
add_error msg p =
    let e : ParserError = record { line_number = p.lexer.line_number; error_msg = msg } in
    parsed tt (record p { errors = p.errors ++ e ∷ [] })

-- prs.addError(msg); return nil
abbrev pub refuse {ℓ} : {A : Type ℓ} → Message → Parse (Option A)
refuse msg = add_error msg >> pure none

-- prs.lex(): an error of the lexer is recorded.
unfoldable pub record_lexed : Parser → Lexed → Parsed Token
record_lexed p (lexed token after) = parsed token (record p { lexer = after })
record_lexed p (lex_error e line after) =
    let error : ParserError = record { line_number = line; error_msg = lexer_message e } in
    parsed gtok_error (record p { lexer = after; errors = p.errors ++ error ∷ [] })
record_lexed p slice_panic = panicked
record_lexed p out_of_fuel = endless

unfoldable pub lex_token : Strconv → Parse Token
unfolding record_lexed
lex_token c p = record_lexed p (lex c p.lexer)

-- prs.ctx.sym.token
abbrev pub current : Parser → Token
current p = p.lexer.sym.token

-- prs.pushOpCode; the place of the operation stands for the pointer that it returns.
unfoldable pub push_op_code : OpCode → Parse ℕ
push_op_code op p = parsed (length p.code) (record p { code = p.code ++ op ∷ [] })

-- jmp.OpData = …, of the operation at a place
unfoldable pub patch : ℕ → OpCode → Parse (Unit {0})
patch at op = modify λ p. record p { code = set p.code at op }

-- A *symType that an expression results in, by its parseType; nil is `none` of an Option.
pub data Operand : Type 0 where
  literal : DataType → Operand
  value array_reference : Operand
  identifier global_reference member_reference : Bytes → Operand
  capture_reference : ℕ → Operand

-- The variable that a name resolves to, or an error.
unfoldable pub push_variable : Bytes → Option Variable → Parse Bool
push_variable name none = add_error (undefined_variable name) >> pure false
push_variable name (some v) = push_op_code (OpCode.load_variable v.slot_index) >> pure true

-- prs.pushEvalExpression(expr)
unfoldable pub push_eval_expression : Option Operand → Parse Bool
push_eval_expression none = pure false
push_eval_expression (some (literal v)) = push_op_code (OpCode.push_literal_value v) >> pure true
push_eval_expression (some value) = pure true
push_eval_expression (some (identifier name)) =
    λ p. push_variable name (resolve_variable p.block name) p
push_eval_expression (some (global_reference name)) =
    push_op_code (OpCode.load_global name) >> pure true
push_eval_expression (some array_reference) = push_op_code OpCode.get_element >> pure true
push_eval_expression (some (member_reference name)) =
    push_op_code (OpCode.get_property name) >> pure true
push_eval_expression (some (capture_reference i)) =
    push_op_code (OpCode.load_capture i) >> pure true
