-- ===== src/Parser/Expression/Edges.antt =====
-- The first token of a tree and the one behind it, as the expression parser tests them
-- (internal/parser/expression.go).
use gescript.Base.{◌≡◌, refl, sym, ap, ◌∙◌, true, false, some, List, ◌∷◌, ◌⊎◌, inl, inr, ◌≢◌}
use mathlib.Core.Path.{subst}
use gescript.Types.Convert.{Strconv}
use gescript.Parser.Token.{
  Token, Sym, Lexer, gtok_identifier, gtok_comma, gtok_rp, gtok_eof, gtok_error,
}
use gescript.Parser.Expression.Precedence.{
  prec, Led, infix_led, unary_nud, comma_led, logical_and_led, logical_or_led,
}
use gescript.Parser.Expression.Syntax.{
  Expr, constant, name, prefix, binary, both, either, choice, group, index, member, word, first,
  others, led_of, nud_of, IsWritten, Is, IsCompound,
}
use gescript.Parser.Expression.Code.{AreInitialized}
use gescript.Parser.Expression.Steps.{Runs, Runs-append}
use gescript.Parser.Scope.{BlockContext}
use gescript.Parser.Expression.Shared.{is_rp, is_identifier, is_list}
use gescript.Parser.Expression.Infix.{is_end}

is_list-of_led :
    (t : Token) (led : Led) → led_of (prec t) ≡ some led → led ≢ comma_led → is_list t ≡ false
unfolding is_list led_of prec
is_list-of_led gtok_comma led h n = absurd (n (cc))
is_list-of_led gtok_rp led h n = absurd (cc)
is_list-of_led _ led h n = refl

unary_ends : (t : Token) → nud_of (prec t) ≡ some unary_nud → is_end t ≡ false
unfolding is_end nud_of prec
unary_ends gtok_eof h = absurd (cc)
unary_ends gtok_error h = absurd (cc)
unary_ends _ h = refl

unary_is_rp : (t : Token) → nud_of (prec t) ≡ some unary_nud → is_rp t ≡ false
unfolding is_rp nud_of prec
unary_is_rp gtok_rp h = absurd (cc)
unary_is_rp _ h = refl

unary_is_identifier : (t : Token) → nud_of (prec t) ≡ some unary_nud → is_identifier t ≡ false
unfolding is_identifier nud_of prec
unary_is_identifier gtok_identifier h = absurd (cc)
unary_is_identifier _ h = refl

pub is_identifier→token : (t : Token) → is_identifier t ≡ true → t ≡ gtok_identifier
unfolding is_identifier
is_identifier→token gtok_identifier h = refl
is_identifier→token _ h = absurd (cc)

-- The first token of a tree ends no expression and no parentheses.
pub first-opens :
    (e : Expr) (s : Sym)
    → IsWritten e
    → Is (first e) s
    → (is_end s.token ≡ false) × (is_rp s.token ≡ false)
unfolding first is_end is_rp
first-opens (constant v) s w (tok, is) = (ap is_end tok, ap is_rp tok)
first-opens (name n) s w (tok, is) = (ap is_end tok, ap is_rp tok)
first-opens (prefix t a) s (h, l, w) tok =
    (ap is_end tok ∙ unary_ends t h, ap is_rp tok ∙ unary_is_rp t h)
first-opens (binary t a b) s (h, r, l, wa, wb) i = first-opens a s wa i
first-opens (both t a b) s (h, r, l, wa, wb) i = first-opens a s wa i
first-opens (either t a b) s (h, r, l, wa, wb) i = first-opens a s wa i
first-opens (choice a b d) s (r, lb, rb, ld, wa, wb, wd) i = first-opens a s wa i
first-opens (group a) s w tok = (ap is_end tok, ap is_rp tok)
first-opens (index a b) s (r, lb, rb, wa, wb) i = first-opens a s wa i
first-opens (member a n) s (r, wa) i = first-opens a s wa i

-- A name that begins a tree is initialized with it.
pub first-initialized :
    (block : List BlockContext) (e : Expr) (s : Sym)
    → IsWritten e
    → Is (first e) s
    → is_identifier s.token ≡ true
    → AreInitialized block e
    → AreInitialized block (name s.identifier)
unfolding first is_identifier
first-initialized block (constant v) s w (tok, is) i h = absurd (cc)
first-initialized block (name n) s w (tok, is) i h =
    subst (λ m. AreInitialized block (name m)) (sym is) h
first-initialized block (prefix t a) s (u, l, w) tok i h =
    absurd (let no : is_identifier t ≡ false = unary_is_identifier t u in cc)
first-initialized block (binary t a b) s (l, r, x, wa, wb) f i (h, g) =
    first-initialized block a s wa f i h
first-initialized block (both t a b) s (l, r, x, wa, wb) f i (h, g) =
    first-initialized block a s wa f i h
first-initialized block (either t a b) s (l, r, x, wa, wb) f i (h, g) =
    first-initialized block a s wa f i h
first-initialized block (choice a b d) s (r, lb, rb, ld, wa, wb, wd) f i (h, g, k) =
    first-initialized block a s wa f i h
first-initialized block (group a) s w tok i h = absurd (cc)
first-initialized block (index a b) s (r, lb, rb, wa, wb) f i (h, g) =
    first-initialized block a s wa f i h
first-initialized block (member a n) s (r, wa) f i h = first-initialized block a s wa f i h

-- Behind a name that begins a tree there is neither a comma nor the end of parentheses, unless the
-- tree is that name.
pub second-opens :
    (c : Strconv) (e : Expr) (s : Sym) (lx end : Lexer)
    → IsWritten e
    → Is (first e) s
    → is_identifier s.token ≡ true
    → Runs c (others e) lx end
    → IsCompound e ⊎ (is_list end.sym.token ≡ false)
    → is_list lx.sym.token ≡ false
unfolding first others is_identifier is_list
second-opens c (constant v) s lx end w (tok, is) i run h = absurd (cc)
second-opens c (name n) s lx end w f i run (inl h) = absurd h
second-opens c (name n) s lx end w f i run (inr h) = ap (λ x. is_list x.sym.token) run ∙ h
second-opens c (prefix t a) s lx end (u, l, w) tok i run h =
    absurd (let no : is_identifier t ≡ false = unary_is_identifier t u in cc)
second-opens c (binary t a b) s lx end (led, r, x, wa, wb) f i run h =
    let (mid, ra, (tok, rest)) =
      Runs-append c (others a) (word t ∷ first b ∷ others b) lx end run in
    second-opens c a s lx mid wa f i ra
      (inr (ap is_list tok ∙ is_list-of_led t infix_led led λ e. cc))
second-opens c (both t a b) s lx end (led, r, x, wa, wb) f i run h =
    let (mid, ra, (tok, rest)) =
      Runs-append c (others a) (word t ∷ first b ∷ others b) lx end run in
    second-opens c a s lx mid wa f i ra
      (inr (ap is_list tok ∙ is_list-of_led t logical_and_led led λ e. cc))
second-opens c (either t a b) s lx end (led, r, x, wa, wb) f i run h =
    let (mid, ra, (tok, rest)) =
      Runs-append c (others a) (word t ∷ first b ∷ others b) lx end run in
    second-opens c a s lx mid wa f i ra
      (inr (ap is_list tok ∙ is_list-of_led t logical_or_led led λ e. cc))
second-opens c (choice a b d) s lx end (r, lb, rb, ld, wa, wb, wd) f i run h =
    let (mid, ra, (tok, rest)) = Runs-append c (others a) _ lx end run in
    second-opens c a s lx mid wa f i ra (inr (ap is_list tok))
second-opens c (group a) s lx end w tok i run h = absurd (cc)
second-opens c (index a b) s lx end (r, lb, rb, wa, wb) f i run h =
    let (mid, ra, (tok, rest)) = Runs-append c (others a) _ lx end run in
    second-opens c a s lx mid wa f i ra (inr (ap is_list tok))
second-opens c (member a n) s lx end (r, wa) f i run h =
    let (mid, ra, (tok, rest)) = Runs-append c (others a) _ lx end run in
    second-opens c a s lx mid wa f i ra (inr (ap is_list tok))
