-- ===== src/Engine.antt =====
-- internal/engine: the process, the operations and the execution loop.
pub mod Code
pub mod Heap
pub mod Process
pub mod Host
pub mod Ops
pub mod Exec
