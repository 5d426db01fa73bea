-- ===== src/Tests/Compiling.antt =====
-- Runs of the expression parser.
use gescript.Base.{suc, Option, none, some, List, [], ◌∷◌, Bytes, codes, length}
use gescript.Engine.Code.{OpCode}
use gescript.Parser.Lexer.{new_lexer}
use gescript.Parser.Scope.{new_block}
use gescript.Parser.State.{Parser, ParserError, parsed, Operand}
use gescript.Parser.Expression.{FunctionParser, next_expression}
use gescript.Tests.Sample.{plain_strconv}
use gescript.Tests.Lexing.{no_sym}

abbrev pub no_functions : FunctionParser
no_functions name_req is_arrow names p = parsed none p

abbrev pub new_parser : Bytes → Parser
new_parser source = record {
  lexer = new_lexer no_sym source;
  code = [];
  var_count = 0;
  block = new_block [] ∷ [];
  captures = record { entries = []; outers = [] };
  functions = [];
  errors = [];
}

-- The code of an expression, if its parser returns.
compiled : Bytes → Option (Option Operand × List OpCode × List ParserError)
compiled source =
    elim (next_expression plain_strconv no_functions (suc (length source)) 0 (new_parser source)) [
      | parsed operand p ↦ some (operand, p.code, p.errors)
      | _ ↦ none
    ]

run1 : Option (Option Operand × List OpCode × List ParserError)
run1 = compiled (codes "1 + 2 * 3 - a.b[4]")

run2 : Option (Option Operand × List OpCode × List ParserError)
run2 = compiled (codes "1 ? 2 : 3 ? 4 : 5")

run3 : Option (Option Operand × List OpCode × List ParserError)
run3 = compiled (codes "()()")

run4 : Option (Option Operand × List OpCode × List ParserError)
run4 = compiled (codes "-1 * f(2, ...x) && !(3)")
