-- ===== src/Parser/Lexer/Spelling/Operators.antt =====
-- The operators and their texts, longest match against the switch of the lexer.
use gescript.Base.{
  ◌≡◌, true, false, Option, none, some, List, [], ◌∷◌, ◌++◌, Bytes, codes, arith, drop,
}
use gescript.Parser.Token.{
  gtok_unknown, gtok_assign, gtok_regeq, gtok_regnoteq, gtok_add, gtok_and, gtok_andand, gtok_arrow,
  gtok_colon, gtok_comma, gtok_decr, gtok_div, gtok_dot, gtok_ellipsis, gtok_eqeq, gtok_eqeqeq,
  gtok_gt, gtok_gteq, gtok_gtgt, gtok_gtgtgt, gtok_incr, gtok_lb, gtok_lc, gtok_lp, gtok_lt,
  gtok_lteq, gtok_ltlt, gtok_mod, gtok_mult, gtok_not, gtok_noteq, gtok_noteqeq, gtok_or, gtok_oror,
  gtok_qmark, gtok_rb, gtok_rc, gtok_rp, gtok_semi, gtok_sub, gtok_tilde, gtok_xor,
}
use gescript.Parser.Lexer.Blank.{peek, peek_next}
use gescript.Parser.Lexer.Operators.{
  Operator, plain, compound, doubling, assigning, less_operator, greater_operator, equals_operator,
  not_operator, punctuator, scan_operator,
}
use gescript.Parser.Lexer.Spelling.{continues}

-- Every operator with its text.
abbrev pub operators : List (Bytes × Operator)
operators =
    (codes "{", plain gtok_lc 1)
    ∷ (codes "}", plain gtok_rc 1)
    ∷ (codes "(", plain gtok_lp 1)
    ∷ (codes ")", plain gtok_rp 1)
    ∷ (codes "[", plain gtok_lb 1)
    ∷ (codes "]", plain gtok_rb 1)
    ∷ (codes ";", plain gtok_semi 1)
    ∷ (codes ",", plain gtok_comma 1)
    ∷ (codes "~", plain gtok_tilde 1)
    ∷ (codes "?", plain gtok_qmark 1)
    ∷ (codes ":", plain gtok_colon 1)
    ∷ (codes ".", plain gtok_dot 1)
    ∷ (codes "...", plain gtok_ellipsis 3)
    ∷ (codes "<", plain gtok_lt 1)
    ∷ (codes "<=", plain gtok_lteq 2)
    ∷ (codes "<<", plain gtok_ltlt 2)
    ∷ (codes ">", plain gtok_gt 1)
    ∷ (codes ">=", plain gtok_gteq 2)
    ∷ (codes ">>", plain gtok_gtgt 2)
    ∷ (codes ">>>", plain gtok_gtgtgt 3)
    ∷ (codes "==", plain gtok_eqeq 2)
    ∷ (codes "===", plain gtok_eqeqeq 3)
    ∷ (codes "=>", plain gtok_arrow 2)
    ∷ (codes "!", plain gtok_not 1)
    ∷ (codes "!=", plain gtok_noteq 2)
    ∷ (codes "!==", plain gtok_noteqeq 3)
    ∷ (codes "+", plain gtok_add 1)
    ∷ (codes "++", plain gtok_incr 2)
    ∷ (codes "-", plain gtok_sub 1)
    ∷ (codes "--", plain gtok_decr 2)
    ∷ (codes "*", plain gtok_mult 1)
    ∷ (codes "/", plain gtok_div 1)
    ∷ (codes "%", plain gtok_mod 1)
    ∷ (codes "&", plain gtok_and 1)
    ∷ (codes "&&", plain gtok_andand 2)
    ∷ (codes "|", plain gtok_or 1)
    ∷ (codes "||", plain gtok_oror 2)
    ∷ (codes "^", plain gtok_xor 1)
    ∷ (codes "<<=", compound gtok_ltlt 3)
    ∷ (codes ">>=", compound gtok_gtgt 3)
    ∷ (codes ">>>=", compound gtok_gtgtgt 4)
    ∷ (codes "+=", compound gtok_add 2)
    ∷ (codes "-=", compound gtok_sub 2)
    ∷ (codes "*=", compound gtok_mult 2)
    ∷ (codes "/=", compound gtok_div 2)
    ∷ (codes "%=", compound gtok_mod 2)
    ∷ (codes "&=", compound gtok_and 2)
    ∷ (codes "|=", compound gtok_or 2)
    ∷ (codes "^=", compound gtok_xor 2)
    ∷ (codes "=~", record (plain gtok_regeq 2) { sets_regex = true })
    ∷ (codes "!~", record (plain gtok_regnoteq 2) { sets_regex = true })
    ∷ (codes "=", record (plain gtok_assign 1) { assign_op = some gtok_unknown })
    ∷ []

abbrev pub scan_text : Bytes → Option Operator
scan_text [] = none
scan_text (c ∷ text) = scan_operator c (peek text) (peek_next text) (peek (drop 2 text))

-- The lexer takes the whole of the text for the operator, whatever follows that does not continue it.
abbrev pub ScansAs : Bytes × Operator → Type 0
ScansAs (text, op) =
    (rest : Bytes) → continues (peek rest) ≡ false → scan_text (text ++ rest) ≡ some op

abbrev pub All : (Bytes × Operator → Type 0) → List (Bytes × Operator) → Type 0
All P [] = Unit
All P (x ∷ xs) = P x × All P xs

-- Each operator of the language is read back from its text: the switch finds the longest.
pub scan_text-operators : All ScansAs operators
unfolding scan_operator punctuator doubling assigning less_operator greater_operator equals_operator
    not_operator
scan_text-operators = (
  λ rest h. ground arith,
  (
    λ rest h. ground arith,
    (
      λ rest h. ground arith,
      (
        λ rest h. ground arith,
        (
          λ rest h. ground arith,
          (
            λ rest h. ground arith,
            (
              λ rest h. ground arith,
              (
                λ rest h. ground arith,
                (
                  λ rest h. ground arith,
                  (
                    λ rest h. ground arith,
                    (
                      λ rest h. ground arith,
                      (
                        λ rest h. ground arith,
                        (
                          λ rest h. ground arith,
                          (
                            λ rest h. ground arith,
                            (
                              λ rest h. ground arith,
                              (
                                λ rest h. ground arith,
                                (
                                  λ rest h. ground arith,
                                  (
                                    λ rest h. ground arith,
                                    (
                                      λ rest h. ground arith,
                                      (
                                        λ rest h. ground arith,
                                        (
                                          λ rest h. ground arith,
                                          (
                                            λ rest h. ground arith,
                                            (
                                              λ rest h. ground arith,
                                              (
                                                λ rest h. ground arith,
                                                (
                                                  λ rest h. ground arith,
                                                  (
                                                    λ rest h. ground arith,
                                                    (
                                                      λ rest h. ground arith,
                                                      (
                                                        λ rest h. ground arith,
                                                        (
                                                          λ rest h. ground arith,
                                                          (
                                                            λ rest h. ground arith,
                                                            (
                                                            λ rest h. ground arith,
                                                            (
                                                            λ rest h. ground arith,
                                                            (
                                                            λ rest h. ground arith,
                                                            (
                                                            λ rest h. ground arith,
                                                            (
                                                            λ rest h. ground arith,
                                                            (
                                                            λ rest h. ground arith,
                                                            (
                                                            λ rest h. ground arith,
                                                            (
                                                            λ rest h. ground arith,
                                                            (
                                                            λ rest h. ground arith,
                                                            (
                                                            λ rest h. ground arith,
                                                            (
                                                            λ rest h. ground arith,
                                                            (
                                                            λ rest h. ground arith,
                                                            (
                                                            λ rest h. ground arith,
                                                            (
                                                            λ rest h. ground arith,
                                                            (
                                                            λ rest h. ground arith,
                                                            (
                                                            λ rest h. ground arith,
                                                            (
                                                            λ rest h. ground arith,
                                                            (
                                                            λ rest h. ground arith,
                                                            (
                                                            λ rest h. ground arith,
                                                            (
                                                            λ rest h. ground arith,
                                                            (
                                                            λ rest h. ground arith,
                                                            (λ rest h. ground arith, tt),
                                                            ),
                                                            ),
                                                            ),
                                                            ),
                                                            ),
                                                            ),
                                                            ),
                                                            ),
                                                            ),
                                                            ),
                                                            ),
                                                            ),
                                                            ),
                                                            ),
                                                            ),
                                                            ),
                                                            ),
                                                            ),
                                                            ),
                                                            ),
                                                            ),
                                                          ),
                                                        ),
                                                      ),
                                                    ),
                                                  ),
                                                ),
                                              ),
                                            ),
                                          ),
                                        ),
                                      ),
                                    ),
                                  ),
                                ),
                              ),
                            ),
                          ),
                        ),
                      ),
                    ),
                  ),
                ),
              ),
            ),
          ),
        ),
      ),
    ),
  ),
)
