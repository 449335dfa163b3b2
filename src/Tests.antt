-- ===== src/Tests.antt =====
-- Runs at concrete inputs: a sample program, compiler state and machine.
pub mod Samples
mod Compiling
mod Caching
mod Optimizing
mod Statements
mod Routes
mod Lexing
mod Running
