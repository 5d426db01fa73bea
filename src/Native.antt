-- ===== src/Native.antt =====
-- The functions that scripts find built in (internal/native).
pub mod Array
pub mod Text
