-- ===== src/Parser/Lexer/Bounds/Symbols.antt =====
-- The width of an operator, against the text that it is read from.
use gescript.Base.{
  ℕ, suc, ◌<◌, ◌≤◌, Bool, true, false, ◌&&◌, Option, none, some, [], ◌∷◌, Bytes, ◌==◌,
  if◌then◌else◌, drop, length, arith,
}
use gescript.Parser.Token.{Token, gtok_ellipsis, gtok_dot}
use gescript.Parser.Lexer.Blank.{peek, peek_next}
use gescript.Parser.Lexer.Operators.{
  Operator, plain, doubling, assigning, less_operator, greater_operator, equals_operator,
  not_operator, punctuator, scan_operator,
}

-- The width of an operator, if there is one, is from 1 to `most`.
abbrev pub OperatorFits : ℕ → Option Operator → Type 0
OperatorFits most (some op) = (1 ≤ op.width) × (op.width ≤ most)
OperatorFits most none = Unit

less_operator-Fits :
    (text : Bytes)
    → OperatorFits (suc (length text)) (some (less_operator (peek text) (peek_next text)))
unfolding less_operator
less_operator-Fits [] = ground arith
less_operator-Fits (n ∷ []) = ground arith
less_operator-Fits (n ∷ m ∷ text) = ground arith

greater_operator-Fits :
    (text : Bytes)
    → OperatorFits
        (suc (length text))
        (some (greater_operator (peek text) (peek_next text) (peek (drop 2 text))))
unfolding greater_operator
greater_operator-Fits [] = ground arith
greater_operator-Fits (n ∷ []) = ground arith
greater_operator-Fits (n ∷ m ∷ []) = ground arith
greater_operator-Fits (n ∷ m ∷ l ∷ text) = ground arith

equals_operator-Fits :
    (text : Bytes)
    → OperatorFits (suc (length text)) (some (equals_operator (peek text) (peek_next text)))
unfolding equals_operator
equals_operator-Fits [] = ground arith
equals_operator-Fits (n ∷ []) = ground arith
equals_operator-Fits (n ∷ m ∷ text) = ground arith

not_operator-Fits :
    (text : Bytes)
    → OperatorFits (suc (length text)) (some (not_operator (peek text) (peek_next text)))
unfolding not_operator
not_operator-Fits [] = ground arith
not_operator-Fits (n ∷ []) = ground arith
not_operator-Fits (n ∷ m ∷ text) = ground arith

doubling-Fits :
    (t d : Token) (c : ℕ) (text : Bytes)
    → 0 < c
    → OperatorFits (suc (length text)) (some (doubling t d c (peek text)))
unfolding doubling
doubling-Fits t d c [] p = ground arith
doubling-Fits t d c (n ∷ text) p = ground arith

assigning-Fits :
    (t : Token) (text : Bytes) → OperatorFits (suc (length text)) (some (assigning t (peek text)))
unfolding assigning
assigning-Fits t [] = ground arith
assigning-Fits t (n ∷ text) = ground arith

dots-Fits :
    (text : Bytes)
    → OperatorFits (suc (length text)) (
        some (
          if peek text == b'.' && (peek_next text == b'.')
          then plain gtok_ellipsis 3
          else plain gtok_dot 1))
dots-Fits [] = ground arith
dots-Fits (n ∷ []) = ground arith
dots-Fits (n ∷ m ∷ text) = ground arith

OperatorFits-if :
    (b : Bool) (most : ℕ) (s t : Option Operator)
    → OperatorFits most s
    → OperatorFits most t
    → OperatorFits most (if b then s else t)
OperatorFits-if true most s t hs ht = hs
OperatorFits-if false most s t hs ht = ht

OperatorFits-option :
    (o : Option Token) (most : ℕ) (rest : Option Operator)
    → 1 ≤ most
    → OperatorFits most rest
    → OperatorFits most (elim o [ some t ↦ some (plain t 1) | none ↦ rest ])
OperatorFits-option none most rest h hr = hr
OperatorFits-option (some t) most rest h hr = (omega arith, h)

pub scan_operator-Fits :
    (c : ℕ) (text : Bytes)
    → OperatorFits
        (suc (length text))
        (scan_operator c (peek text) (peek_next text) (peek (drop 2 text)))
unfolding scan_operator
scan_operator-Fits c text =
    let most = suc (length text) in
    OperatorFits-option (punctuator c) most _ (omega arith) (
      OperatorFits-if (c == b'.') most _ _ (dots-Fits text) (
        OperatorFits-if (c == b'<') most _ _ (less_operator-Fits text) (
          OperatorFits-if (c == b'>') most _ _ (greater_operator-Fits text) (
            OperatorFits-if (c == b'=') most _ _ (equals_operator-Fits text) (
              OperatorFits-if (c == b'!') most _ _ (not_operator-Fits text) (
                OperatorFits-if (c == b'+') most _ _ (doubling-Fits _ _ b'+' text (omega arith)) (
                  OperatorFits-if (c == b'-') most _ _ (doubling-Fits _ _ b'-' text (omega arith)) (
                    OperatorFits-if (c == b'*') most _ _ (assigning-Fits _ text) (
                      OperatorFits-if (c == b'/') most _ _ (assigning-Fits _ text) (
                        OperatorFits-if (c == b'%') most _ _ (assigning-Fits _ text) (
                          OperatorFits-if (c == b'&') most _ _
                            (doubling-Fits _ _ b'&' text (omega arith))
                            (OperatorFits-if (c == b'|') most _ _
                              (doubling-Fits _ _ b'|' text (omega arith))
                              (OperatorFits-if (c == b'^') most _ none (assigning-Fits _ text)
                                tt)))))))))))))
