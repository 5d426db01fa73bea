-- ===== src/Tests.antt =====
-- Runs of small programs, and the theorems at concrete inputs.
mod Sample
mod Programs
mod Values
mod Process
mod Scope
mod Lexing
mod Captures
mod Arrays
mod Compiling
mod Sources
mod Trees
mod Texts
mod Calls
mod Invariant
