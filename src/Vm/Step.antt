-- ===== src/Vm/Step.antt =====
-- pkg/vm/vm.go: executeInstruction, step, runLoop and Execute.
use glyphlang.Prelude.{
  ℕ, zero, suc, ◌+◌, Bool, true, false, not, ◌&&◌, List, Option, some, none, ok, err, ltb, ◌==◌,
  if◌then◌else◌, length, get_or,
}
use glyphlang.Vm.Value.{Value, null, Host, Fallible, pc_out_of_bounds, unknown_opcode, step_limit}
use glyphlang.Vm.Opcode.{
  Opcode, opcode_of, op_push, op_pop, op_add, op_sub, op_mul, op_div, op_mod, op_eq, op_ne, op_lt,
  op_gt, op_ge, op_le, op_and, op_or, op_not, op_neg, op_load_var, op_store_var, op_jump,
  op_jump_if_false, op_jump_if_true, op_get_iter, op_iter_next, op_iter_has_next, op_get_index,
  op_set_index, op_return, op_call, op_build_object, op_get_field, op_set_field, op_def_func,
  op_build_array, op_http_return, op_ws_send, op_ws_broadcast, op_ws_broadcast_room,
  op_ws_join_room, op_ws_leave_room, op_ws_close, op_ws_get_rooms, op_ws_get_clients,
  op_ws_get_conn_count, op_ws_get_uptime, op_async, op_await, op_try, op_mitosis, op_mutator,
  op_telemetry, op_halt,
}
use glyphlang.Vm.Machine.{Vm, pop}
use glyphlang.Vm.Arith.{exec_add, exec_sub, exec_mul, exec_div, exec_mod, exec_neg}
use glyphlang.Vm.Compare.{
  exec_and, exec_or, exec_not, exec_eq, exec_ne, exec_lt, exec_gt, exec_ge, exec_le,
}
use glyphlang.Vm.Collection.{
  exec_get_index, exec_get_field, exec_set_field, exec_set_index, exec_build_array,
  exec_build_object, exec_get_iter, exec_iter_has_next, exec_iter_next,
}
use glyphlang.Vm.Control.{
  exec_push, exec_pop, exec_load_var, exec_store_var, exec_jump, exec_jump_if, exec_def_func,
  exec_return, exec_call, exec_http_return, exec_telemetry, exec_async, exec_await, exec_try,
  exec_ws_counter, exec_ws_command,
}
use glyphlang.Vm.Loader.{load}

-- vm.maxSteps > 0 && steps > vm.maxSteps
unfoldable pub over_limit : ℕ → ℕ → Bool
over_limit limit steps = ltb 0 limit && ltb limit steps

module _ (host : Host) where
  -- executeInstruction, at an opcode of the switch
  unfoldable pub execute : Opcode → Vm → Fallible Vm
  execute op_push vm = exec_push vm
  execute op_pop vm = exec_pop vm
  execute op_add vm = exec_add host vm
  execute op_sub vm = exec_sub host vm
  execute op_mul vm = exec_mul host vm
  execute op_div vm = exec_div host vm
  execute op_mod vm = exec_mod host vm
  execute op_eq vm = exec_eq host vm
  execute op_ne vm = exec_ne host vm
  execute op_lt vm = exec_lt host vm
  execute op_gt vm = exec_gt host vm
  execute op_ge vm = exec_ge host vm
  execute op_le vm = exec_le host vm
  execute op_and vm = exec_and vm
  execute op_or vm = exec_or vm
  execute op_not vm = exec_not vm
  execute op_neg vm = exec_neg host vm
  execute op_load_var vm = exec_load_var vm
  execute op_store_var vm = exec_store_var vm
  execute op_jump vm = exec_jump vm
  execute op_jump_if_false vm = exec_jump_if false vm
  execute op_jump_if_true vm = exec_jump_if true vm
  execute op_get_iter vm = exec_get_iter host vm
  execute op_iter_next vm = exec_iter_next vm
  execute op_iter_has_next vm = exec_iter_has_next vm
  execute op_get_index vm = exec_get_index vm
  execute op_set_index vm = exec_set_index vm
  execute op_return vm = exec_return vm
  execute op_call vm = exec_call vm
  execute op_build_object vm = exec_build_object vm
  execute op_get_field vm = exec_get_field vm
  execute op_set_field vm = exec_set_field vm
  execute op_def_func vm = exec_def_func vm
  execute op_build_array vm = exec_build_array vm
  execute op_http_return vm = exec_http_return vm
  execute op_ws_send vm = exec_ws_command vm
  execute op_ws_broadcast vm = exec_ws_command vm
  execute op_ws_broadcast_room vm = exec_ws_command vm
  execute op_ws_join_room vm = exec_ws_command vm
  execute op_ws_leave_room vm = exec_ws_command vm
  execute op_ws_close vm = exec_ws_command vm
  execute op_ws_get_rooms vm = exec_ws_command vm
  execute op_ws_get_clients vm = exec_ws_command vm
  execute op_ws_get_conn_count vm = exec_ws_counter vm
  execute op_ws_get_uptime vm = exec_ws_counter vm
  execute op_async vm = exec_async vm
  execute op_await vm = exec_await host vm
  execute op_try vm = exec_try vm
  execute op_mitosis vm = err unknown_opcode
  execute op_mutator vm = err unknown_opcode
  execute op_telemetry vm = exec_telemetry vm
  execute op_halt vm = ok (record vm { halted = true })

  -- The default case of the switch.
  unfoldable pub execute_case : Option Opcode → Vm → Fallible Vm
  execute_case (some op) vm = execute op vm
  execute_case none vm = err unknown_opcode

  -- executeInstruction, at a byte
  unfoldable pub execute_instruction : ℕ → Vm → Fallible Vm
  execute_instruction byte vm = execute_case (opcode_of byte) vm

  -- (vm *VM) step
  unfoldable pub step : Vm → Fallible Vm
  step vm =
      if ltb vm.pc (length vm.code)
      then execute_instruction (get_or vm.code vm.pc 0) (record vm { pc = vm.pc + 1 })
      else err pc_out_of_bounds

  -- The condition of the loop.
  unfoldable pub running : Vm → Bool
  running vm = not vm.halted && ltb vm.pc (length vm.code)

  -- What runLoop returns when its loop has ended.
  unfoldable pub run_result : Vm → Fallible (Value × Vm)
  run_result vm = if length vm.stack == 0 then ok (null, vm) else pop vm

  -- What one round leads to: `rest` is the next round.
  unfoldable pub after_round :
      (Vm → Option (Fallible (Value × Vm))) → ℕ → Fallible Vm → Option (Fallible (Value × Vm))
  after_round rest steps (err e) = some (err e)
  after_round rest steps (ok vm) = elim (over_limit vm.max_steps steps) [
    | true ↦ some (err step_limit)
    | false ↦ rest vm
  ]

  -- runLoop, after `steps` rounds. `none` means that the fuel ran out, which no run of the source
  -- does: the loop may be endless if max_steps is 0.
  unfoldable pub run_loop : ℕ → ℕ → Vm → Option (Fallible (Value × Vm))
  run_loop zero steps vm = none
  run_loop (suc fuel) steps vm = elim (running vm) [
    | false ↦ some (run_result vm)
    | true ↦ after_round (run_loop fuel (steps + 1)) (steps + 1) (step vm)
  ]

  -- Execute
  unfoldable pub execute_bytecode : ℕ → List ℕ → Vm → Option (Fallible (Value × Vm))
  execute_bytecode fuel bytecode vm = elim (load bytecode vm) [
    | err e ↦ some (err e)
    | ok vm' ↦ run_loop fuel 0 vm'
  ]
