-- ===== src/Lib.antt =====
-- The engine of gescript, an interpreter of a JavaScript-like language in Go.
--
-- A script is compiled by internal/parser to opcodes, each a Go function with its data, and run by
-- internal/engine on a Process: a stack of values that grows by doubling, the local variables and
-- the cells of the captured ones, the frames of the calls, and the contexts of the try statements.
-- Values are those of types/types.go. A caller sets it all up by gescript.go, and internal/native
-- holds the functions that scripts find built in. The development covers internal/engine, types, the
-- lexer, the scopes and captures of the parser, its expressions, and methods of arrays and strings.
--
-- Which file models what:
--   Types/Value, Types/Array, Types/Object    types/types.go: values and the methods on them
--   Types/Convert, Types/Equality             types/util.go: IsTruthy, ToString, ToNumber, ToInt,
--                                             StrictEquals
--   Engine/Code, Engine/Heap, Engine/Process  internal/engine/engine.go: Function, OpCode, Process
--   Engine/Ops/*                              internal/engine/operations.go: XOperation is
--                                             x_operation
--   Engine/Exec                               internal/engine/engine.go: Exec, CallWithThis, and
--                                             the treatment of an exception in the loop
--   Engine/Host                               what an embedding program and Go's libraries supply
--   Parser/Scope                              internal/parser/parser.go: blockContext, and the
--                                             variable statements of statement.go
--   Parser/Captures                           internal/parser/parser.go: captureEntry,
--                                             resolveCapture, cascadeCapture
--   Parser/Token, Parser/Lexer                internal/parser/lexer.go: _lex and lex, a scan for
--                                             each kind of token
--   Parser/State                              internal/parser/parser.go: parser, lex, pushOpCode,
--                                             pushEvalExpression, addError
--   Parser/Expression                         internal/parser/expression.go: XNud is x_nud of Prefix,
--                                             XLed is x_led of Infix, prec of Precedence;
--                                             Syntax and Code hold trees, their tokens and their code
--   Native/Array                              internal/native/array.go: the methods of arrays without
--                                             callbacks
--   Native/Text                               internal/native/string.go: the parts of a string by
--                                             their places
--   Word, Float, Decimal                      Go's int, float64, and the texts of ints
--   Base                                      lists, texts and the lemmas on them
--
-- An operation is an action of a monad over the process: it returns, fails with a Go error, or
-- panics, and what it wrote before a failure stays written. What Go reaches by a pointer is in
-- lists of the Heap, and a reference is a position there, so that two values with one reference
-- share what they lead to. The map of an object is an association list; the order in which Go
-- ranges over it is a function of the host. A write to the package variable types.Undefined through
-- a fresh cell, and an unbounded recursion, are faults of the model.
--
-- Go's int is a number below 2 ^ 64 that is read as a signed one, with the wrap-around of each
-- operation; float64 is its bits, with executable IEEE arithmetic. Printing and parsing of floats
-- and the trimming of text are parameters (Types.Convert.Strconv), and so are the native functions
-- and the member resolvers (Engine.Host.Host).
--
-- The execution loop has a bound on its rounds, since a script need not end; a run that reaches the
-- bound has a result of its own (out_of_fuel). The depth to which values are printed is bounded by
-- the number of arrays and bound functions in the heap: a deeper one would hold one of them inside
-- itself. The chain of bound functions of a call is bounded likewise.
--
-- The lexer has its source as a list of bytes and is at an offset in it; a scan of a token works on
-- the rest of the text and returns how many bytes it took. Its loop over blanks and comments has as
-- many rounds as there are bytes left and one more, which is enough since each goes over a byte
-- (Parser.Lexer.Bounds). The chain of outer scopes of a function is a list, the captures of each in
-- it, so that what Go appends through a pointer is a new list.
--
-- The parser is a state of its own, with the code emitted so far, and its functions are actions that
-- return, panic, or reach a bound. An operation that Go patches through a pointer is known by its
-- place in the code, and a symbol that a function returns by its parseType, nil by `none`. The bound
-- counts the nested calls of parseExpression and the rounds of its loops; three for each token of a
-- tree are enough (Parser.Expression.Correct). parseFunctionDecl, which parses statements, is a
-- parameter of the expression parser.
--
-- Not modelled: the compiler of statements, the native functions but those methods
-- of arrays and strings, the reflection and JSON helpers of types/util.go, and the options of
-- gescript.go. The methods of arrays with callbacks are left out since a callback can change the
-- array under the loop, which Go then sees or not as its slices share their elements.
pub mod Base
pub mod Word
pub mod Float
pub mod Decimal
pub mod Types
pub mod Engine
pub mod Parser
pub mod Native
pub mod Tests
