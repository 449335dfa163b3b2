-- ===== src/Vm.antt =====
-- pkg/vm: the stack machine that runs compiled routes.
pub mod Value
pub mod Opcode
pub mod Machine
pub mod Arith
pub mod Compare
pub mod Collection
pub mod Control
pub mod Loader
pub mod Step
pub mod Frame
pub mod Runs
