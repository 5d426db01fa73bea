-- ===== src/Parser/Expression/Steps.antt =====
-- The steps of parseExpression and completeExpression, and of the functions of the table, on the
-- tokens of expressions (internal/parser/expression.go).
use gescript.Base.{
  ℕ, suc, ◌<◌, ◌≤◌, ◌≡◌, refl, ap, ◌∙◌, false, Option, none, some, List, [], ◌∷◌, ◌++◌, ltb, lt→ltb,
  inl, inr, Bool-cases, Option-cases, if◌then◌else◌, arith,
}
use mathlib.Core.Path.{subst}
use gescript.Types.Convert.{Strconv}
use gescript.Engine.Code.{OpCode}
use gescript.Parser.Token.{Lexer}
use gescript.Parser.Lexer.{lexed, lex}
use gescript.Parser.State.{
  Parser, Parse, parsed, continue, ◌>>=◌, pure, refuse, left_syntax_error, record_lexed, lex_token,
  Operand,
}
use gescript.Parser.Expression.{
  FunctionParser, run_nud, run_led, complete_some, start_with, go_on_with, led_above, binding_led,
  parse_expression, complete_expression,
}
use gescript.Parser.Expression.Precedence.{PrecDefn, prec, Nud, Led}
use gescript.Parser.Expression.Shared.{Parsers, is_error, advance}
use gescript.Parser.Expression.Syntax.{
  Tok, Is, power, power_of, led_of, nud_of, prefix_power, prefix_power_of,
}

-- The lexer goes on from a token to the next.
abbrev pub Advances : Strconv → Lexer → Lexer → Type 0
Advances c lx after = (lex c lx ≡ lexed after.sym.token after) × (is_error after.sym.token ≡ false)

-- The tokens that the lexer gives, from the current one on, and where it is behind them.
abbrev pub Runs : Strconv → List Tok → Lexer → Lexer → Type 0
Runs c [] lx end = lx ≡ end
Runs c (t ∷ ts) lx end = Is t lx.sym × ((after : Lexer) × Advances c lx after × Runs c ts after end)

pub Runs-append :
    (c : Strconv) (ts us : List Tok) (lx end : Lexer)
    → Runs c (ts ++ us) lx end
    → (mid : Lexer) × Runs c ts lx mid × Runs c us mid end
Runs-append c [] us lx end h = (lx, refl, h)
Runs-append c (t ∷ ts) us lx end (i, (after, s, h)) =
    let (mid, l, r) = Runs-append c ts us after end h in (mid, (i, (after, s, l)), r)

-- The parser with a lexer and a code.
abbrev pub at : Parser → Lexer → List OpCode → Parser
at p lx code = record p { lexer = lx; code = code }

pub lex_token-step :
    (c : Strconv) (p : Parser) (lx after : Lexer) (code : List OpCode)
    → Advances c lx after
    → lex_token c (at p lx code) ≡ parsed after.sym.token (at p after code)
unfolding lex_token record_lexed
lex_token-step c p lx after code (h, e) = ap (record_lexed (at p lx code)) h

pub advance-step {ℓ} :
    {A : Type ℓ} (c : Strconv) (p : Parser) (lx after : Lexer) (code : List OpCode)
    (next : Parse (Option A))
    → Advances c lx after
    → advance c next (at p lx code) ≡ next (at p after code)
unfolding advance
advance-step {A = A} c p lx after code next (h, e) =
    ap (λ r. continue r (λ token. if is_error token then pure {A = Option A} none else next))
      (lex_token-step c p lx after code (h, e))
    ∙ ap (λ b. (if b then pure {A = Option A} none else next) (at p after code)) e

pub led_above-some :
    (rbp : ℕ) (d : Option PrecDefn) (led : Led)
    → led_of d ≡ some led
    → rbp < power_of d
    → led_above rbp d ≡ some (power_of d, led)
unfolding led_above led_of power_of
led_above-some rbp none led h l = absurd (cc)
led_above-some rbp (some d) led h l =
    let l' : rbp < d.lbp = subst (λ o. rbp < elim o [ none ↦ 0 | some _ ↦ d.lbp ]) h l in
    rw (lt→ltb rbp d.lbp l', h)

led_above-none : (rbp : ℕ) (d : Option PrecDefn) → power_of d ≤ rbp → led_above rbp d ≡ none
unfolding led_above power_of
led_above-none rbp none l = refl
led_above-none rbp (some d) l = elim (Option-cases d.led) [
  | inl h ↦ elim (Bool-cases (ltb rbp d.lbp)) [ inl b ↦ rw (b, h) | inr b ↦ rw (b) ]
  | inr (led, h) ↦
      let l' : d.lbp ≤ rbp = subst (λ o. elim o [ none ↦ 0 | some _ ↦ d.lbp ] ≤ rbp) h l in
      elim (Bool-cases (ltb rbp d.lbp)) [ inl b ↦ absurd (ground arith) | inr b ↦ rw (b) ]
]

-- One round of completeExpression and one call of parseExpression.
module _ (c : Strconv) (functions : FunctionParser) (p : Parser) where
  abbrev pub parsers : ℕ → Parsers
  parsers k = record {
    strconv = c;
    rounds = k;
    parse_expression = parse_expression c functions k;
    complete_expression = complete_expression c functions k;
    parse_function_decl = functions;
  }

  pub complete_expression-stop :
      (k rbp : ℕ) (left : Option Operand) (lx : Lexer) (code : List OpCode)
      → power lx.sym.token ≤ rbp
      → complete_expression c functions (suc k) rbp left (at p lx code) ≡ parsed left (at p lx code)
  unfolding complete_expression binding_led go_on_with
  complete_expression-stop k rbp left lx code h =
      ap (λ o. go_on_with (parsers k) rbp lx.sym left o (at p lx code))
        (led_above-none rbp (prec lx.sym.token) h)

  pub complete_expression-step :
      (k rbp : ℕ) (left : Option Operand) (lx after : Lexer) (code : List OpCode) (led : Led)
      (operand : Operand) (q : Parser)
      → led_of (prec lx.sym.token) ≡ some led
      → rbp < power lx.sym.token
      → Advances c lx after
      → run_led (parsers k) led (power lx.sym.token) lx.sym left (at p after code)
        ≡ parsed (some operand) q
      → complete_expression c functions (suc k) rbp left (at p lx code)
        ≡ complete_expression c functions k rbp (some operand) q
  unfolding complete_expression binding_led go_on_with complete_some
  complete_expression-step k rbp left lx after code led operand q h l s r =
      ap (λ o. go_on_with (parsers k) rbp lx.sym left o (at p lx code))
        (led_above-some rbp (prec lx.sym.token) led h l)
      ∙ advance-step c p lx after code _ s
      ∙ ap (λ m. continue m (complete_some (parsers k) rbp)) r

  start_with-step :
      (k rbp : ℕ) (d : Option PrecDefn) (nud : Nud) (lx after : Lexer) (code : List OpCode)
      → nud_of d ≡ some nud
      → Advances c lx after
      → start_with (parsers k) rbp lx.sym d (at p lx code)
        ≡ continue
            (run_nud (parsers k) nud (prefix_power_of d) lx.sym (at p after code))
            (complete_expression c functions k rbp)
  unfolding start_with nud_of prefix_power_of
  start_with-step k rbp none nud lx after code h s = absurd (cc)
  start_with-step k rbp (some d) nud lx after code h s =
      let step : Option Nud → Parse (Option Operand) = λ o. elim o [
        | none ↦ refuse (left_syntax_error lx.sym.identifier)
        | some n ↦
            advance c (run_nud (parsers k) n d.lbp lx.sym >>= complete_expression c functions k rbp)
      ] in
      ap (λ o. step o (at p lx code)) h ∙ advance-step c p lx after code _ s

  pub parse_expression-step :
      (k rbp : ℕ) (nud : Nud) (lx after : Lexer) (code : List OpCode)
      → nud_of (prec lx.sym.token) ≡ some nud
      → Advances c lx after
      → parse_expression c functions (suc k) rbp (at p lx code)
        ≡ continue
            (run_nud (parsers k) nud (prefix_power lx.sym.token) lx.sym (at p after code))
            (complete_expression c functions k rbp)
  unfolding parse_expression
  parse_expression-step k rbp nud lx after code h s =
      start_with-step k rbp (prec lx.sym.token) nud lx after code h s
