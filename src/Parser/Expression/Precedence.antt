-- ===== src/Parser/Expression/Precedence.antt =====
-- The table of the Pratt parser: prec of internal/parser/expression.go.
use gescript.Base.{ℕ, Option, none, some}
use gescript.Parser.Token.{
  Token, gtok_literal, gtok_null, gtok_true, gtok_false, gtok_identifier, gtok_this, gtok_lc,
  gtok_function, gtok_lp, gtok_lb, gtok_dot, gtok_not, gtok_tilde, gtok_typeof, gtok_delete,
  gtok_incr, gtok_decr, gtok_mult, gtok_div, gtok_mod, gtok_add, gtok_sub, gtok_ltlt, gtok_gtgt,
  gtok_gtgtgt, gtok_lt, gtok_gt, gtok_lteq, gtok_gteq, gtok_in, gtok_instanceof, gtok_eqeq,
  gtok_noteq, gtok_eqeqeq, gtok_noteqeq, gtok_and, gtok_xor, gtok_or, gtok_andand, gtok_oror,
  gtok_qmark, gtok_assign, gtok_arrow, gtok_comma,
}

-- The functions of a precDefn: for a token that begins an expression, and for one behind it.
pub data Nud : Type 0 where
  literal_nud identifier_nud this_nud object_literal_nud function_expr_nud paren_nud : Nud
  array_literal_nud unary_nud typeof_nud delete_nud prefix_incr_decr_nud : Nud

pub data Led : Type 0 where
  call_led element_access_led member_access_led postfix_incr_decr_led infix_led : Led
  logical_and_led logical_or_led ternary_led assignment_led arrow_led comma_led : Led

pub record PrecDefn : Type 0 where
  pub lbp : ℕ
  pub nud : Option Nud
  pub led : Option Led

abbrev defn : ℕ → Option Nud → Option Led → Option PrecDefn
defn lbp nud led = some (record { lbp = lbp; nud = nud; led = led })

abbrev begins : ℕ → Nud → Option PrecDefn
begins lbp nud = defn lbp (some nud) none

abbrev follows : ℕ → Led → Option PrecDefn
follows lbp led = defn lbp none (some led)

abbrev either : ℕ → Nud → Led → Option PrecDefn
either lbp nud led = defn lbp (some nud) (some led)

-- prec(token)
unfoldable pub prec : Token → Option PrecDefn
prec gtok_literal = begins 0 literal_nud
prec gtok_null = begins 0 literal_nud
prec gtok_true = begins 0 literal_nud
prec gtok_false = begins 0 literal_nud
prec gtok_identifier = begins 0 identifier_nud
prec gtok_this = begins 0 this_nud
prec gtok_lc = begins 0 object_literal_nud
prec gtok_function = begins 0 function_expr_nud
prec gtok_lp = either 85 paren_nud call_led
prec gtok_lb = either 85 array_literal_nud element_access_led
prec gtok_dot = follows 85 member_access_led
prec gtok_not = begins 70 unary_nud
prec gtok_tilde = begins 70 unary_nud
prec gtok_typeof = begins 70 typeof_nud
prec gtok_delete = begins 70 delete_nud
prec gtok_incr = either 75 prefix_incr_decr_nud postfix_incr_decr_led
prec gtok_decr = either 75 prefix_incr_decr_nud postfix_incr_decr_led
prec gtok_mult = follows 60 infix_led
prec gtok_div = follows 60 infix_led
prec gtok_mod = follows 60 infix_led
prec gtok_add = either 50 unary_nud infix_led
prec gtok_sub = either 50 unary_nud infix_led
prec gtok_ltlt = follows 47 infix_led
prec gtok_gtgt = follows 47 infix_led
prec gtok_gtgtgt = follows 47 infix_led
prec gtok_lt = follows 45 infix_led
prec gtok_gt = follows 45 infix_led
prec gtok_lteq = follows 45 infix_led
prec gtok_gteq = follows 45 infix_led
prec gtok_in = follows 45 infix_led
prec gtok_instanceof = follows 45 infix_led
prec gtok_eqeq = follows 40 infix_led
prec gtok_noteq = follows 40 infix_led
prec gtok_eqeqeq = follows 40 infix_led
prec gtok_noteqeq = follows 40 infix_led
prec gtok_and = follows 38 infix_led
prec gtok_xor = follows 37 infix_led
prec gtok_or = follows 36 infix_led
prec gtok_andand = follows 35 logical_and_led
prec gtok_oror = follows 30 logical_or_led
prec gtok_qmark = follows 20 ternary_led
prec gtok_assign = follows 10 assignment_led
prec gtok_arrow = follows 10 arrow_led
prec gtok_comma = follows 5 comma_led
prec _ = none
