-- ===== src/Parser/Token.antt =====
-- The tokens of internal/parser/lexer.go, and the lexer with the symbol that it reads.
use gescript.Base.{ℕ, Bool, List, [], ◌∷◌, Bytes, codes, drop}
use gescript.Types.Value.{DataType}

-- `gtok_unknown` is also the number 0, for no operator.
pub data Token : Type 0 where
  gtok_unknown gtok_eof : Token
  gtok_identifier gtok_literal gtok_template gtok_regexp gtok_error : Token
  gtok_break gtok_case gtok_catch gtok_class gtok_const gtok_continue gtok_debugger : Token
  gtok_default gtok_delete gtok_do gtok_else gtok_export gtok_extends gtok_finally : Token
  gtok_for gtok_function gtok_if gtok_import gtok_in gtok_instanceof gtok_let gtok_new : Token
  gtok_of gtok_return gtok_super gtok_switch gtok_this gtok_throw gtok_try gtok_typeof : Token
  gtok_var gtok_void gtok_while gtok_with gtok_yield : Token
  gtok_await gtok_enum gtok_implements gtok_interface gtok_package gtok_private : Token
  gtok_protected gtok_public : Token
  gtok_null gtok_true gtok_false : Token
  gtok_arrow gtok_lc gtok_rc gtok_lp gtok_rp gtok_lb gtok_rb gtok_dot gtok_semi gtok_comma : Token
  gtok_lt gtok_gt gtok_lteq gtok_gteq gtok_ellipsis gtok_eqeq gtok_noteq gtok_eqeqeq : Token
  gtok_noteqeq gtok_add gtok_sub gtok_mult gtok_div gtok_mod gtok_incr gtok_decr gtok_ltlt : Token
  gtok_gtgt gtok_gtgtgt gtok_and gtok_or gtok_xor gtok_not gtok_tilde gtok_andand : Token
  gtok_oror gtok_qmark gtok_colon gtok_assign gtok_assignop gtok_regeq gtok_regnoteq : Token

pub data ParseType : Type 0 where
  parsed_undefined parsed_identifier parsed_literal parsed_regexp parsed_value parsed_arglist :
      ParseType
  parsed_array_reference parsed_opcode parsed_member_reference parsed_global_reference : ParseType
  parsed_capture_reference : ParseType

-- symType; a literal that was never set is a Go nil.
pub record Sym : Type 0 where
  pub token : Token
  pub parse_type : ParseType
  pub identifier : Bytes
  pub literal : DataType
  pub assign_op : Token

-- The lexer struct, without the field error, which nothing uses. `source` is without the 0 that
-- newLexer appends.
pub record Lexer : Type 0 where
  pub source : Bytes
  pub offset : ℕ
  pub line_number : ℕ
  pub regex_valid : Bool
  pub sym : Sym

-- ctx.source[ctx.offset:]
abbrev pub text_at : Lexer → Bytes
text_at lx = drop lx.offset lx.source

unfoldable pub keywords : List (Bytes × Token)
keywords =
    (codes "break", gtok_break)
    ∷ (codes "case", gtok_case)
    ∷ (codes "catch", gtok_catch)
    ∷ (codes "class", gtok_class)
    ∷ (codes "const", gtok_const)
    ∷ (codes "continue", gtok_continue)
    ∷ (codes "debugger", gtok_debugger)
    ∷ (codes "default", gtok_default)
    ∷ (codes "delete", gtok_delete)
    ∷ (codes "do", gtok_do)
    ∷ (codes "else", gtok_else)
    ∷ (codes "export", gtok_export)
    ∷ (codes "extends", gtok_extends)
    ∷ (codes "finally", gtok_finally)
    ∷ (codes "for", gtok_for)
    ∷ (codes "function", gtok_function)
    ∷ (codes "if", gtok_if)
    ∷ (codes "import", gtok_import)
    ∷ (codes "in", gtok_in)
    ∷ (codes "instanceof", gtok_instanceof)
    ∷ (codes "let", gtok_let)
    ∷ (codes "new", gtok_new)
    ∷ (codes "of", gtok_of)
    ∷ (codes "return", gtok_return)
    ∷ (codes "super", gtok_super)
    ∷ (codes "switch", gtok_switch)
    ∷ (codes "this", gtok_this)
    ∷ (codes "throw", gtok_throw)
    ∷ (codes "try", gtok_try)
    ∷ (codes "typeof", gtok_typeof)
    ∷ (codes "var", gtok_var)
    ∷ (codes "void", gtok_void)
    ∷ (codes "while", gtok_while)
    ∷ (codes "with", gtok_with)
    ∷ (codes "yield", gtok_yield)
    ∷ (codes "await", gtok_await)
    ∷ (codes "enum", gtok_enum)
    ∷ (codes "implements", gtok_implements)
    ∷ (codes "interface", gtok_interface)
    ∷ (codes "package", gtok_package)
    ∷ (codes "private", gtok_private)
    ∷ (codes "protected", gtok_protected)
    ∷ (codes "public", gtok_public)
    ∷ (codes "null", gtok_null)
    ∷ (codes "true", gtok_true)
    ∷ (codes "false", gtok_false)
    ∷ []
