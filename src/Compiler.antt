-- ===== src/Compiler.antt =====
-- pkg/compiler: from the syntax tree to bytecode.
pub mod Symbols
pub mod State
pub mod Expression
pub mod Statement
pub mod Control
pub mod Container
pub mod Correct
pub mod Total
pub mod Optimizer
pub mod Routes
