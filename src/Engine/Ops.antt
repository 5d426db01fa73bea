-- ===== src/Engine/Ops.antt =====
-- The opcode functions of internal/engine/operations.go, by the kind of what they do.
pub mod Shape
pub mod Arithmetic
pub mod Bitwise
pub mod Compare
pub mod Jump
pub mod Variable
pub mod Element
pub mod Property
pub mod Literal
pub mod Exception
pub mod Call
pub mod Closure
pub mod ForLoop
