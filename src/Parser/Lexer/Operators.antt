-- ===== src/Parser/Lexer/Operators.antt =====
-- Operators and punctuators (_lex of internal/parser/lexer.go).
use gescript.Base.{ℕ, Bool, true, false, ◌&&◌, Option, none, some, ◌==◌, if◌then◌else◌}
use gescript.Parser.Token.{
  Token, gtok_unknown, gtok_arrow, gtok_lc, gtok_rc, gtok_lp, gtok_rp, gtok_lb, gtok_rb, gtok_dot,
  gtok_semi, gtok_comma, gtok_lt, gtok_gt, gtok_lteq, gtok_gteq, gtok_ellipsis, gtok_eqeq,
  gtok_noteq, gtok_eqeqeq, gtok_noteqeq, gtok_add, gtok_sub, gtok_mult, gtok_div, gtok_mod,
  gtok_incr, gtok_decr, gtok_ltlt, gtok_gtgt, gtok_gtgtgt, gtok_and, gtok_or, gtok_xor, gtok_not,
  gtok_tilde, gtok_andand, gtok_oror, gtok_qmark, gtok_colon, gtok_assign, gtok_assignop,
  gtok_regeq, gtok_regnoteq,
}

-- A token and its length; what it stores in assignOp, if it does; and whether it sets regexValid.
pub record Operator : Type 0 where
  pub token : Token
  pub width : ℕ
  pub assign_op : Option Token
  pub sets_regex : Bool

abbrev pub plain : Token → ℕ → Operator
plain t w = record { token = t; width = w; assign_op = none; sets_regex = false }

abbrev pub compound : Token → ℕ → Operator
compound t w = record { token = gtok_assignop; width = w; assign_op = some t; sets_regex = false }

abbrev regex_operator : Token → Operator
regex_operator t = record (plain t 2) { sets_regex = true }

-- `+` and its like: an operator alone, before `=`, or doubled.
unfoldable pub doubling : Token → Token → ℕ → ℕ → Operator
doubling single double ch nch =
    if nch == ch then plain double 2 else if nch == b'=' then compound single 2 else plain single 1

-- `*` and its like: an operator alone or before `=`.
unfoldable pub assigning : Token → ℕ → Operator
assigning single nch = if nch == b'=' then compound single 2 else plain single 1

unfoldable pub less_operator : ℕ → ℕ → Operator
less_operator n m =
    if n == b'='
    then plain gtok_lteq 2
    else if n == b'<'
    then (if m == b'=' then compound gtok_ltlt 3 else plain gtok_ltlt 2)
    else plain gtok_lt 1

unfoldable pub greater_operator : ℕ → ℕ → ℕ → Operator
greater_operator n m l =
    if n == b'='
    then plain gtok_gteq 2
    else if n == b'>'
    then (if m == b'>'
        then (if l == b'=' then compound gtok_gtgtgt 4 else plain gtok_gtgtgt 3)
        else if m == b'='
        then compound gtok_gtgt 3
        else plain gtok_gtgt 2)
    else plain gtok_gt 1

unfoldable pub equals_operator : ℕ → ℕ → Operator
equals_operator n m =
    if n == b'='
    then (if m == b'=' then plain gtok_eqeqeq 3 else plain gtok_eqeq 2)
    else if n == b'~'
    then regex_operator gtok_regeq
    else if n == b'>'
    then plain gtok_arrow 2
    else record (plain gtok_assign 1) { assign_op = some gtok_unknown }

unfoldable pub not_operator : ℕ → ℕ → Operator
not_operator n m =
    if n == b'='
    then (if m == b'=' then plain gtok_noteqeq 3 else plain gtok_noteq 2)
    else if n == b'~'
    then regex_operator gtok_regnoteq
    else plain gtok_not 1

-- The punctuators of one byte.
unfoldable pub punctuator : ℕ → Option Token
punctuator c =
    if c == b'{'
    then some gtok_lc
    else if c == b'}'
    then some gtok_rc
    else if c == b'('
    then some gtok_lp
    else if c == b')'
    then some gtok_rp
    else if c == b'['
    then some gtok_lb
    else if c == b']'
    then some gtok_rb
    else if c == b';'
    then some gtok_semi
    else if c == b','
    then some gtok_comma
    else if c == b'~'
    then some gtok_tilde
    else if c == b'?'
    then some gtok_qmark
    else if c == b':'
    then some gtok_colon
    else none

-- The switch on the byte `c`, with the three bytes behind it. Of these bytes only those are looked
-- at that follow one which is not 0.
unfoldable pub scan_operator : ℕ → ℕ → ℕ → ℕ → Option Operator
scan_operator c n m l = elim (punctuator c) [
  | some t ↦ some (plain t 1)
  | none ↦
      if c == b'.'
      then some (if n == b'.' && (m == b'.') then plain gtok_ellipsis 3 else plain gtok_dot 1)
      else if c == b'<'
      then some (less_operator n m)
      else if c == b'>'
      then some (greater_operator n m l)
      else if c == b'='
      then some (equals_operator n m)
      else if c == b'!'
      then some (not_operator n m)
      else if c == b'+'
      then some (doubling gtok_add gtok_incr b'+' n)
      else if c == b'-'
      then some (doubling gtok_sub gtok_decr b'-' n)
      else if c == b'*'
      then some (assigning gtok_mult n)
      else if c == b'/'
      then some (assigning gtok_div n)
      else if c == b'%'
      then some (assigning gtok_mod n)
      else if c == b'&'
      then some (doubling gtok_and gtok_andand b'&' n)
      else if c == b'|'
      then some (doubling gtok_or gtok_oror b'|' n)
      else if c == b'^'
      then some (assigning gtok_xor n)
      else none
]
