-- ===== src/Parser/Expression/Syntax.antt =====
-- Expressions as trees, with the tokens that they are written by.
use gescript.Base.{ℕ, suc, ◌+◌, ◌<◌, ◌≤◌, ◌≡◌, Option, none, some, List, [], ◌∷◌, ◌++◌, Bytes}
use gescript.Types.Value.{DataType}
use gescript.Parser.Token.{
  Token, Sym, gtok_identifier, gtok_literal, gtok_lp, gtok_rp, gtok_lb, gtok_rb, gtok_dot,
  gtok_qmark, gtok_colon,
}
use gescript.Parser.Expression.Precedence.{
  PrecDefn, prec, Nud, unary_nud, Led, infix_led, logical_and_led, logical_or_led,
}

-- A tree. A binary, logical or prefix operator is its token.
pub data Expr : Type 0 where
  constant : DataType → Expr
  name : Bytes → Expr
  prefix : Token → Expr → Expr
  binary both either : Token → Expr → Expr → Expr
  choice : Expr → Expr → Expr → Expr
  group : Expr → Expr
  index : Expr → Expr → Expr
  member : Expr → Bytes → Expr

-- What is to be seen of a symbol.
pub data Tok : Type 0 where
  word : Token → Tok
  ident : Bytes → Tok
  lit : DataType → Tok

abbrev pub Is : Tok → Sym → Type 0
Is (word t) s = s.token ≡ t
Is (ident n) s = (s.token ≡ gtok_identifier) × (s.identifier ≡ n)
Is (lit v) s = (s.token ≡ gtok_literal) × (s.literal ≡ v)

-- The first token of an expression, and the others.
unfoldable pub first : Expr → Tok
first (constant v) = lit v
first (name n) = ident n
first (prefix t a) = word t
first (binary t a b) = first a
first (both t a b) = first a
first (either t a b) = first a
first (choice a b d) = first a
first (group a) = word gtok_lp
first (index a b) = first a
first (member a n) = first a

unfoldable pub others : Expr → List Tok
others (constant v) = []
others (name n) = []
others (prefix t a) = first a ∷ others a
others (binary t a b) = others a ++ (word t ∷ first b ∷ others b)
others (both t a b) = others a ++ (word t ∷ first b ∷ others b)
others (either t a b) = others a ++ (word t ∷ first b ∷ others b)
others (choice a b d) =
    others a ++ (word gtok_qmark ∷ first b ∷ (others b ++ (word gtok_colon ∷ first d ∷ others d)))
others (group a) = first a ∷ (others a ++ (word gtok_rp ∷ []))
others (index a b) = others a ++ (word gtok_lb ∷ first b ∷ (others b ++ (word gtok_rb ∷ [])))
others (member a n) = others a ++ (word gtok_dot ∷ ident n ∷ [])

-- How tightly a token binds what is on its left: 0 if it does not; and its led.
unfoldable pub power_of : Option PrecDefn → ℕ
power_of none = 0
power_of (some d) = elim d.led [ none ↦ 0 | some led ↦ d.lbp ]

abbrev pub power : Token → ℕ
power t = power_of (prec t)

unfoldable pub led_of : Option PrecDefn → Option Led
led_of none = none
led_of (some d) = d.led

-- How tightly a prefix operator binds what is on its right.
unfoldable pub prefix_power_of : Option PrecDefn → ℕ
prefix_power_of none = 0
prefix_power_of (some d) = d.lbp

abbrev pub prefix_power : Token → ℕ
prefix_power t = prefix_power_of (prec t)

unfoldable pub nud_of : Option PrecDefn → Option Nud
nud_of none = none
nud_of (some d) = d.nud

-- What binds less tightly than this on the left of an expression takes it whole; and what binds at
-- most as tightly on its right. No operator binds more tightly than 100.
abbrev pub BindsLeft : ℕ → Expr → Type 0
BindsLeft rbp (binary t a b) = (rbp < power t) × BindsLeft rbp a
BindsLeft rbp (both t a b) = (rbp < power t) × BindsLeft rbp a
BindsLeft rbp (either t a b) = (rbp < power t) × BindsLeft rbp a
BindsLeft rbp (choice a b d) = (rbp < 20) × BindsLeft rbp a
BindsLeft rbp (index a b) = (rbp < 85) × BindsLeft rbp a
BindsLeft rbp (member a n) = (rbp < 85) × BindsLeft rbp a
BindsLeft rbp _ = Unit

abbrev pub BindsRight : Expr → ℕ → Type 0
BindsRight (prefix t a) m = (m ≤ prefix_power t) × BindsRight a m
BindsRight (binary t a b) m = (m ≤ power t) × BindsRight b m
BindsRight (both t a b) m = (m ≤ power t) × BindsRight b m
BindsRight (either t a b) m = (m ≤ power t) × BindsRight b m
BindsRight (choice a b d) m = (m ≤ 20) × BindsRight d m
BindsRight _ m = Unit

-- A name alone, which parentheses are not written around.
abbrev pub IsCompound : Expr → Type 0
IsCompound (name n) = ⊥
IsCompound _ = Unit

-- A tree that has parentheses where the powers of its operators ask for them. An operator of the
-- same power stands on the left without parentheses, a choice too.
abbrev pub IsWritten : Expr → Type 0
IsWritten (constant v) = Unit
IsWritten (name n) = Unit
IsWritten (prefix t a) =
    (nud_of (prec t) ≡ some unary_nud) × BindsLeft (prefix_power t) a × IsWritten a
IsWritten (binary t a b) =
    (led_of (prec t) ≡ some infix_led)
    × BindsRight a (power t)
    × BindsLeft (power t) b
    × IsWritten a
    × IsWritten b
IsWritten (both t a b) =
    (led_of (prec t) ≡ some logical_and_led)
    × BindsRight a (power t)
    × BindsLeft (power t) b
    × IsWritten a
    × IsWritten b
IsWritten (either t a b) =
    (led_of (prec t) ≡ some logical_or_led)
    × BindsRight a (power t)
    × BindsLeft (power t) b
    × IsWritten a
    × IsWritten b
IsWritten (choice a b d) =
    BindsRight a 20
    × BindsLeft 0 b
    × BindsRight b 0
    × BindsLeft 20 d
    × IsWritten a
    × IsWritten b
    × IsWritten d
IsWritten (group a) = IsCompound a × BindsLeft 0 a × BindsRight a 0 × IsWritten a
IsWritten (index a b) = BindsRight a 85 × BindsLeft 0 b × BindsRight b 0 × IsWritten a × IsWritten b
IsWritten (member a n) = BindsRight a 85 × IsWritten a

-- The number of operators on the left edge.
unfoldable pub steps : Expr → ℕ
steps (binary t a b) = suc (steps a)
steps (both t a b) = suc (steps a)
steps (either t a b) = suc (steps a)
steps (choice a b d) = suc (steps a)
steps (index a b) = suc (steps a)
steps (member a n) = suc (steps a)
steps _ = 0

-- The bound that the operators of a tree ask for, and the one that the tree asks for.
unfoldable pub size : Expr → ℕ
unfolding steps
size (constant v) = 0
size (name n) = 0
size (prefix t a) = suc (suc (steps a + size a))
size (binary t a b) = size a + suc (suc (steps b + size b))
size (both t a b) = size a + suc (suc (steps b + size b))
size (either t a b) = size a + suc (suc (steps b + size b))
size (choice a b d) = size a + suc (suc (steps b + size b)) + suc (suc (steps d + size d))
size (group a) = suc (suc (steps a + size a))
size (index a b) = size a + suc (suc (steps b + size b))
size (member a n) = size a

abbrev pub bound : Expr → ℕ
bound e = suc (suc (steps e + size e))
