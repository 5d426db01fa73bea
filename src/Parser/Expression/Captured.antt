-- ===== src/Parser/Expression/Captured.antt =====
-- A name of an outer function, alone and in parentheses (identifierNud and parenNud of
-- internal/parser/expression.go).
use gescript.Base.{
  ℕ, suc, ◌≤◌, ◌≡◌, ap, ◌∙◌, false, Option, none, some, List, [], ◌∷◌, Bytes, if◌then◌else◌, codes,
  str_eq,
}
use gescript.Types.Value.{undefined}
use gescript.Types.Convert.{Strconv}
use gescript.Parser.Token.{Lexer, gtok_lp, gtok_rp}
use gescript.Parser.Scope.{resolve_variable}
use gescript.Parser.Captures.{Captures, OuterScope, resolve_capture}
use gescript.Parser.State.{
  Parser, Parse, Parsed, parsed, continue, refuse, pure, lex_token, empty_parentheses, ◌>>=◌, ◌>>◌,
  Operand, literal, global_reference, capture_reference,
}
use gescript.Parser.Expression.{FunctionParser, run_nud, parse_expression, complete_expression}
use gescript.Parser.Expression.Precedence
use gescript.Parser.Expression.Precedence.{prec}
use gescript.Parser.Expression.Shared.{
  is_rp, is_identifier, is_list, advance, capture_or, captured_or,
}
use gescript.Parser.Expression.Prefix.{parse_arrow_function_body, variable_or, identifier_nud}
use gescript.Parser.Expression.Parens.{
  is_arrow, paren_nud, paren_identifier, paren_names, close_paren, arrow_or, variable_list,
  comma_names, name_list_result, parse_expression_with_identifier,
}
use gescript.Parser.Expression.Syntax.{nud_of, power, word, ident}
use gescript.Parser.Expression.Steps.{
  Runs, at, parsers, advance-step, lex_token-step, parse_expression-step, complete_expression-stop,
}

-- A list of one name in parentheses, not declared in the function: it is taken as a global.
name_list_result-global :
    (n : Bytes) (p : Parser)
    → resolve_variable p.block n ≡ none
    → name_list_result (n ∷ []) p ≡ parsed (some (global_reference n)) p
unfolding name_list_result comma_names variable_or
name_list_result-global n p h = ap (λ f. variable_or n f (pure (some (global_reference n))) p) h

-- A name that is captured from a function around this one.
identifier_nud-captured :
    (n : Bytes) (p : Parser) (o : OuterScope) (os : List OuterScope) (i : ℕ) (captures : Captures)
    → str_eq n (codes "undefined") ≡ false
    → resolve_variable p.block n ≡ none
    → p.captures.outers ≡ o ∷ os
    → resolve_capture n p.captures ≡ (some i, captures)
    → identifier_nud n p ≡ parsed (some (capture_reference i)) (record p { captures = captures })
unfolding identifier_nud variable_or captured_or capture_or
identifier_nud-captured n p o os i captures u h outer found =
    let resolved : Parse (Option Operand) = captured_or n (global_reference n) in
    let taken : List OuterScope → Parsed (Option Operand) = λ l. elim l [
      | [] ↦ parsed (some (global_reference n)) p
      | _ ∷ _ ↦ capture_or (global_reference n) (resolve_capture n p.captures) p
    ] in
    ap
      (λ b.
        (if b
          then parsed (some (literal undefined)) p
          else variable_or n (resolve_variable p.block n) resolved p))
      u
    ∙ ap (λ v. variable_or n v resolved p) h
    ∙ ap taken outer
    ∙ ap (λ r. capture_or (global_reference n) r p) found

module _ (c : Strconv) (functions : FunctionParser) (p : Parser) where
  paren_names-single :
      (k : ℕ) (n : Bytes) (lx end : Lexer)
      → resolve_variable p.block n ≡ none
      → Runs c (word gtok_rp ∷ []) lx end
      → is_arrow end.sym.token ≡ false
      → paren_names (parsers c functions p (suc k)) n gtok_rp (at p lx p.code)
        ≡ parsed (some (global_reference n)) (at p end p.code)
  unfolding paren_names variable_list arrow_or is_arrow
  paren_names-single k n lx end h (is_end, (x, s, e)) arrow =
      let ps = parsers c functions p (suc k) in
      let result = name_list_result (n ∷ []) in
      advance-step c p lx x p.code (arrow_or ps (n ∷ []) result) s
      ∙ ap (λ l. arrow_or ps (n ∷ []) result (at p l p.code)) e
      ∙ ap
          (λ b.
            (if b then lex_token c >> parse_arrow_function_body ps (n ∷ []) else result)
              (at p end p.code))
          arrow
      ∙ name_list_result-global n (at p end p.code) h

  paren_nud-single :
      (k : ℕ) (n : Bytes) (lx end : Lexer)
      → resolve_variable p.block n ≡ none
      → Runs c (ident n ∷ word gtok_rp ∷ []) lx end
      → is_arrow end.sym.token ≡ false
      → paren_nud (parsers c functions p (suc k)) (at p lx p.code)
        ≡ parsed (some (global_reference n)) (at p end p.code)
  unfolding paren_nud paren_identifier is_rp is_identifier is_list
  paren_nud-single k n lx end h ((is_id, is_n), (mid, s, (is_end, rest))) arrow =
      let ps = parsers c functions p (suc k) in
      let empty : Parse (Option Operand) = advance c (arrow_or ps [] (refuse empty_parentheses)) in
      let other : Parse (Option Operand) = ps.parse_expression 0 >>= close_paren c in
      let inside : Parse (Option Operand) =
        parse_expression_with_identifier ps 0 lx.sym.identifier >>= close_paren c in
      ap
        (λ t.
          (if is_rp t
              then empty
              else if is_identifier t
              then paren_identifier ps lx.sym.identifier
              else other)
            (at p lx p.code))
        is_id
      ∙ ap (λ r. continue r λ t. if is_list t then paren_names ps lx.sym.identifier t else inside)
          (lex_token-step c p lx mid p.code s)
      ∙ ap
          (λ t.
            (if is_list t then paren_names ps lx.sym.identifier t else inside) (at p mid p.code))
          is_end
      ∙ ap (λ m. paren_names ps m gtok_rp (at p mid p.code)) is_n
      ∙ paren_names-single k n mid end h (is_end, rest) arrow

  -- A name other than undefined that is captured from a function around, and is not declared in
  -- this one, is a capture where it stands alone and a global name where it stands in
  -- parentheses, with neither an arrow behind nor anything that binds more tightly than asked
  -- for.
  pub captured_name-parentheses :
      (k rbp : ℕ) (n : Bytes) (end : Lexer) (o : OuterScope) (os : List OuterScope) (i : ℕ)
      (captures : Captures)
      → str_eq n (codes "undefined") ≡ false
      → resolve_variable p.block n ≡ none
      → p.captures.outers ≡ o ∷ os
      → resolve_capture n p.captures ≡ (some i, captures)
      → Runs c (word gtok_lp ∷ ident n ∷ word gtok_rp ∷ []) p.lexer end
      → is_arrow end.sym.token ≡ false
      → power end.sym.token ≤ rbp
      → (identifier_nud n p
          ≡ parsed (some (capture_reference i)) (record p { captures = captures }))
        × (parse_expression c functions (suc (suc k)) rbp p
            ≡ parsed (some (global_reference n)) (record p { lexer = end }))
  unfolding nud_of prec run_nud
  captured_name-parentheses k rbp n end o os i captures u h outer found (tok, (lx, s, rest)) arrow
        stop =
      (
        identifier_nud-captured n p o os i captures u h outer found,
        parse_expression-step c functions p (suc k) rbp Precedence.paren_nud p.lexer lx p.code
              (ap (λ t. nud_of (prec t)) tok) s
            ∙ ap (λ m. continue m (complete_expression c functions (suc k) rbp))
                (paren_nud-single k n lx end h rest arrow)
            ∙ complete_expression-stop c functions p k rbp (some (global_reference n)) end p.code
                stop,
      )
