-- ===== src/Parser/Lexer/Spelling/RoundTrip.antt =====
-- The lexer on the text of a token.
use mathlib.Core.List.{append_assoc}
use mathlib.Core.Path.{subst}
use gescript.Base.{◌≡◌, ◌∙◌, sym, ap, true, false, [], ◌∷◌, ◌++◌, Bytes, length}
use gescript.Types.Value.{string}
use gescript.Types.Convert.{Strconv}
use gescript.Parser.Token.{Lexer, text_at}
use gescript.Parser.Lexer.{lex}
use gescript.Parser.Lexer.Blank.{peek}
use gescript.Parser.Lexer.Spelling.{separates, quote_bytes}
use gescript.Parser.Lexer.Spelling.Lexemes.{
  Lexeme, name, natural, quoted, operator, spell, IsLexeme, valued, symbol_of, Reads,
}
use gescript.Parser.Lexer.Spelling.Words.{lex-name, lex-natural, lex-quoted, length-quoted}
use gescript.Parser.Lexer.Spelling.Symbols.{lex-operator}

-- A token that the lexer begins at, as it is written and with something behind it that separates
-- it (no byte of a name, nor one that can make an operator or a number longer), is read as that
-- token: a name or keyword, a natural number below 2 ^ 63, a text in double quotes, an operator.
-- The symbol left is that token's, and the lexer moves over its text and no further. A regular
-- expression may not begin there, since `/` is then none of the operators.
pub lex-spell :
    (c : Strconv) (lx : Lexer) (t : Lexeme) (rest : Bytes)
    → IsLexeme t
    → lx.regex_valid ≡ false
    → text_at lx ≡ spell t ++ rest
    → separates (peek rest) ≡ true
    → Reads lx (length (spell t)) (symbol_of t lx.sym) (lex c lx)
lex-spell c lx (name n) rest h invalid at stop = lex-name c lx n rest h at stop
lex-spell c lx (natural n) rest h invalid at stop = lex-natural c lx n rest h at stop
lex-spell c lx (quoted s) rest h invalid at stop =
    subst (λ n. Reads lx n (valued (string s) lx.sym) (lex c lx)) (sym (length-quoted s))
      (lex-quoted c lx s rest
        (at ∙ ap (λ t. b'"' ∷ t) (append_assoc (quote_bytes s) (b'"' ∷ []) rest)))
lex-spell c lx (operator text op) rest h invalid at stop =
    lex-operator c lx text rest op h invalid at stop
