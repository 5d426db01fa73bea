-- ===== src/Parser.antt =====
-- The parts of the parser (internal/parser) that are modelled.
pub mod Scope
pub mod Token
pub mod Lexer
pub mod Captures
pub mod State
pub mod Expression
