-- ===== src/Parser/Lexer/Bounds/Forward.antt =====
-- How the lexer goes forward in its source.
use gescript.Base.{
  ℕ, suc, ◌+◌, ◌<◌, ◌≤◌, ◌≡◌, ◌⊎◌, inr, ap, Bool, true, false, ◌&&◌, [], ◌∷◌, Bytes, ◌==◌, length,
  length-drop, arith,
}
use gescript.Parser.Token.{Token, gtok_eof, Lexer, text_at}
use gescript.Parser.Lexer.{Lexed, lexed, lex_error, slice_panic, out_of_fuel, Step, again, done}
use gescript.Parser.Lexer.Blank.{peek}
use gescript.Parser.Lexer.Name.{is_digit}

-- `.5` and its like at the front.
abbrev pub starts_with_dot : Bytes → Bool
starts_with_dot [] = false
starts_with_dot (c ∷ text) = c == b'.' && is_digit (peek text)

-- The lexer has gone forward within the source, and by a byte at least but at the end.
pub record Advances (lx : Lexer) (token : Token) (after : Lexer) : Type 0 where
  pub same_source : after.source ≡ lx.source
  pub in_source : after.offset ≤ length lx.source
  pub forward : lx.offset ≤ after.offset
  pub moves_on : (token ≡ gtok_eof) ⊎ (lx.offset < after.offset)
  pub lines : lx.line_number ≤ after.line_number

abbrev pub LexFits : Lexer → Lexed → Type 0
LexFits lx (lexed token after) = Advances lx token after
LexFits lx (lex_error e line after) =
    (after.source ≡ lx.source) × (after.offset ≤ length lx.source) × (lx.line_number ≤ line)
LexFits lx slice_panic = (lx.offset ≡ 0) × (starts_with_dot lx.source ≡ true)
LexFits lx out_of_fuel = ⊥

abbrev pub StepFits : Lexer → Step → Type 0
StepFits lx (done r) = LexFits lx r
StepFits lx (again after) =
    (after.source ≡ lx.source)
    × (after.offset ≤ length lx.source)
    × (lx.offset < after.offset)
    × (lx.line_number ≤ after.line_number)

-- The text at the lexer begins with `ch` and goes on with `text`.
abbrev pub At : Lexer → ℕ → Bytes → Type 0
At lx ch text = text_at lx ≡ ch ∷ text

pub length-At :
    (lx : Lexer) (ch : ℕ) (text : Bytes)
    → At lx ch text
    → lx.offset + suc (length text) ≡ length lx.source
length-At lx ch text at = omega (arith, ap length at, length-drop lx.offset lx.source)

-- A token of `n` bytes.
pub Advances-move :
    (lx : Lexer) (token : Token) (n lines : ℕ) (after : Lexer)
    → after.source ≡ lx.source
    → after.offset ≡ lx.offset + n
    → after.line_number ≡ lx.line_number + lines
    → 1 ≤ n
    → lx.offset + n ≤ length lx.source
    → Advances lx token after
Advances-move lx token n lines after s o l pos fits = record {
  same_source = s;
  in_source = omega arith;
  forward = omega arith;
  moves_on = inr (omega arith);
  lines = omega arith;
}
