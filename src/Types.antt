-- ===== src/Types.antt =====
-- types/types.go and types/util.go: the values of a script, and their conversions.
pub mod Value
pub mod Array
pub mod Object
pub mod Convert
pub mod Equality
