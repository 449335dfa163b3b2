-- ===== src/Vm/Loader/Layout.antt =====
-- parseBytecodeLayout finds the code where parseBytecode does.
use glyphlang.Vm.Value.{Value}
use glyphlang.Vm.Machine.{Vm}
