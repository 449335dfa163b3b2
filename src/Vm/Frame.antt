-- ===== src/Vm/Frame.antt =====
-- What no instruction of the machine changes, and the bound on its stack.
pub mod Basic
pub mod Values
pub mod Flow
pub mod Run
