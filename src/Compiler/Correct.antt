-- ===== src/Compiler/Correct.antt =====
-- The code of an expression does on the machine what the expression means.
pub mod Code
pub mod Steps
pub mod Parts
pub mod Execution
pub mod Emission
pub mod Joining
pub mod Whole
pub mod Theorems
pub mod Return
pub mod Jumps
pub mod Arrivals
pub mod StatementCode
pub mod StatementParts
pub mod StatementBodies
pub mod StatementRuns
pub mod Pieces
pub mod Patches
pub mod Placement
pub mod Leaves
pub mod Leaving
pub mod Nesting
pub mod Branching
pub mod Statements
pub mod Settling
pub mod Relocation
pub mod Relocated
pub mod Programs
