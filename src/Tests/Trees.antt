-- ===== src/Tests/Trees.antt =====
-- The expression parser at concrete sources.
use gescript.Base.{List, none, ℕ, ◌≡◌, refl, some, [], ◌∷◌, codes}
use gescript.Types.Value.{integer}
use gescript.Engine.Code.{OpCode}
use gescript.Parser.Token.{
  Lexer, gtok_eof, gtok_add, gtok_mult, gtok_lp, gtok_rp, gtok_qmark, gtok_colon,
}
use gescript.Parser.State.{Parser, parsed, value, panicked, global_reference, capture_reference}
use gescript.Parser.Expression.{parse_expression}
use gescript.Parser.Expression.Syntax.{
  Expr, constant, name, binary, first, others, led_of, power_of,
}
use gescript.Parser.Expression.Code.{operand, early, late}
use gescript.Parser.Expression.Correct.{parse_expression-tree, parse_expression-choice_left}
use gescript.Parser.Expression.Precedence.{prec}
use gescript.Parser.Expression.Shared.{is_error}
use gescript.Parser.Expression.Infix.{infix_op}
use gescript.Parser.Scope.{new_block, resolve_variable, find_variable}
use native.Mathlib.Omega.{arith}
use gescript.Parser.Captures.{
  find_capture, captured_by, resolve_loop, capture_at, add_capture, resolve_capture,
}
use gescript.Parser.Expression.Prefix.{identifier_nud}
use gescript.Parser.Expression.Parens.{is_arrow}
use gescript.Parser.Expression.Nil.{empty_parentheses-call}
use gescript.Parser.Expression.Captured.{captured_name-parentheses}
use gescript.Tests.Captures.{in_two, a_function, program}
use gescript.Tests.Sample.{plain_strconv}
use gescript.Tests.Sources.{
  at_number, sum_start, sum_two, sum_plus, sum_times, sum_name, sum_end, chain, chain_mark,
  callee_at, paren_start, open_choice, open_mark, paren_name, paren_close, paren_end, all_lexed,
}
use gescript.Parser.Expression.Unfinished.{parse_expression-open_choice}
use gescript.Tests.Compiling.{no_functions, new_parser}

-- 1+2*a
abbrev sum_tree : Expr
sum_tree =
    binary gtok_add (constant (integer 1))
      (binary gtok_mult (constant (integer 2)) (name (codes "a")))

-- The parser with a lexer at its first token.
abbrev starting : Lexer → Parser
starting lx = record (new_parser []) { lexer = lx }

parse_expression-tree_example :
    parse_expression plain_strconv no_functions 15 0 (starting sum_start)
    ≡ parsed (some value) (record (starting sum_start) {
      lexer = sum_end;
      code =
          OpCode.push_literal_value (integer 1)
          ∷ OpCode.push_literal_value (integer 2)
          ∷ OpCode.load_global (codes "a")
          ∷ OpCode.multiplication
          ∷ OpCode.addition
          ∷ [];
    })
unfolding operand early late infix_op first others prec led_of power_of resolve_variable
    find_variable new_block is_error
parse_expression-tree_example =
    let ((a, (b, (c, (d, (e, u))))), chains, calls, parens, opens) = all_lexed in
    parse_expression-tree plain_strconv no_functions sum_tree 0 15 (starting sum_start) sum_end
      (refl, tt, (omega arith, tt), tt, (refl, tt, tt, tt, tt)) (tt, (tt, λ v h. absurd (cc))) refl
      (omega arith, tt) (omega arith, (omega arith, tt)) (omega arith)
      (
        (refl, refl),
        (
          sum_plus,
          (a, refl),
          (
            refl,
            (
              sum_two,
              (b, refl),
              (
                (refl, refl),
                (
                  sum_times,
                  (c, refl),
                  (refl, (sum_name, (d, refl), ((refl, refl), (sum_end, (e, refl), refl)))),
                ),
              ),
            ),
          ),
        ),
      )
      (omega arith)

-- 1?2:3?4:5
abbrev numeral : ℕ → Expr
numeral n = constant (integer n)

parse_expression-choice_left_example :
    parse_expression plain_strconv no_functions 27 0 (starting (at_number chain 1 1))
    ≡ parsed (some value) (record (starting (at_number chain 1 1)) {
      lexer = chain_mark 9 gtok_eof 5;
      code =
          OpCode.push_literal_value (integer 1)
          ∷ OpCode.jump_if_false 4
          ∷ OpCode.push_literal_value (integer 2)
          ∷ OpCode.jump 5
          ∷ OpCode.push_literal_value (integer 3)
          ∷ OpCode.jump_if_false 8
          ∷ OpCode.push_literal_value (integer 4)
          ∷ OpCode.jump 9
          ∷ OpCode.push_literal_value (integer 5)
          ∷ [];
    })
unfolding operand early late first others prec led_of power_of is_error
parse_expression-choice_left_example =
    let (sums, (a, (b, (c, (d, (e, (f, (g, (h, (i, u))))))))), calls, parens, opens) = all_lexed in
    parse_expression-choice_left plain_strconv no_functions (numeral 1) (numeral 2) (numeral 3)
      (numeral 4) (numeral 5) 0 27 (starting (at_number chain 1 1)) (chain_mark 9 gtok_eof 5)
      ((omega arith, tt), tt, tt, tt, (tt, tt, tt, tt, tt, tt, tt), tt, tt) (tt, tt, (tt, tt, tt))
      refl (omega arith, (omega arith, tt)) tt (omega arith)
      (
        (refl, refl),
        (
          chain_mark 2 gtok_qmark 1,
          (a, refl),
          (
            refl,
            (
              at_number chain 3 2,
              (b, refl),
              (
                (refl, refl),
                (
                  chain_mark 4 gtok_colon 2,
                  (c, refl),
                  (
                    refl,
                    (
                      at_number chain 5 3,
                      (d, refl),
                      (
                        (refl, refl),
                        (
                          chain_mark 6 gtok_qmark 3,
                          (e, refl),
                          (
                            refl,
                            (
                              at_number chain 7 4,
                              (f, refl),
                              (
                                (refl, refl),
                                (
                                  chain_mark 8 gtok_colon 4,
                                  (g, refl),
                                  (
                                    refl,
                                    (
                                      at_number chain 9 5,
                                      (h, refl),
                                      ((refl, refl), (chain_mark 9 gtok_eof 5, (i, refl), refl)),
                                    ),
                                  ),
                                ),
                              ),
                            ),
                          ),
                        ),
                      ),
                    ),
                  ),
                ),
              ),
            ),
          ),
        ),
      )
      (omega arith)

empty_parentheses-call_example :
    parse_expression plain_strconv no_functions 2 0 (starting (callee_at 1 gtok_lp)) ≡ panicked
unfolding is_error
empty_parentheses-call_example =
    let (sums, chains, (a, (b, (c, u))), parens, opens) = all_lexed in
    empty_parentheses-call plain_strconv no_functions (starting (callee_at 1 gtok_lp)) 0 0
      (callee_at 4 gtok_rp) (omega arith)
      (
        refl,
        (
          callee_at 2 gtok_rp,
          (a, refl),
          (refl, (callee_at 3 gtok_lp, (b, refl), (refl, (callee_at 4 gtok_rp, (c, refl), refl)))),
        ),
      )

-- A function inside another of the program that declares `a`.
abbrev closure_parser : Parser
closure_parser = record (starting paren_start) { block = []; captures = in_two }

captured_name-parentheses_example :
    (identifier_nud (codes "a") closure_parser
      ≡ parsed
          (some (capture_reference 0))
          (record closure_parser { captures = (resolve_capture (codes "a") in_two).1 }))
    × (parse_expression plain_strconv no_functions 2 0 closure_parser
        ≡ parsed
            (some (global_reference (codes "a")))
            (record closure_parser { lexer = paren_end }))
unfolding resolve_capture find_capture resolve_loop resolve_variable captured_by find_variable
    capture_at add_capture is_error is_arrow prec power_of
captured_name-parentheses_example =
    let (sums, chains, calls, (a, (b, (c, u))), opens) = all_lexed in
    captured_name-parentheses plain_strconv no_functions closure_parser 0 0 (codes "a") paren_end
      a_function (program ∷ []) 0 (resolve_capture (codes "a") in_two).1 refl refl refl refl
      (
        refl,
        (
          paren_name,
          (a, refl),
          ((refl, refl), (paren_close, (b, refl), (refl, (paren_end, (c, refl), refl)))),
        ),
      )
      refl (omega arith)

parse_expression-open_choice_example :
    (code : List OpCode) × (parse_expression plain_strconv no_functions 12 0
        (starting (at_number open_choice 1 1))
      ≡ parsed none (record (starting (at_number open_choice 1 1)) {
        lexer = open_mark 4 gtok_eof 2;
        code = code;
      }))
unfolding first others is_error
parse_expression-open_choice_example =
    let (sums, chains, calls, parens, (a, (b, (c, (d, u))))) = all_lexed in
    parse_expression-open_choice plain_strconv no_functions (numeral 1) (numeral 2) 0 12
      (starting (at_number open_choice 1 1)) (open_mark 4 gtok_eof 2) tt tt tt tt refl (omega arith)
      tt tt tt tt
      (
        (refl, refl),
        (
          open_mark 2 gtok_qmark 1,
          (a, refl),
          (
            refl,
            (
              at_number open_choice 3 2,
              (b, refl),
              (
                (refl, refl),
                (
                  open_mark 4 gtok_colon 2,
                  (c, refl),
                  (refl, (open_mark 4 gtok_eof 2, (d, refl), refl)),
                ),
              ),
            ),
          ),
        ),
      )
      refl (omega arith)
