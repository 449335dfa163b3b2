-- ===== src/Vm/Control.antt =====
-- pkg/vm/vm.go: variables, jumps, functions, futures and the instructions that end a run.
use glyphlang.Prelude.{
  ℕ, zero, suc, ◌+◌, Bool, true, false, not, List, [], ◌∷◌, Option, some, none, ok, err, ◌>>=◌,
  ◌>>◌, leb, if◌then◌else◌, length, or_fail, guard,
}
use glyphlang.Prelude.Maps.{Str, lookup, insert}
use glyphlang.Vm.Value.{
  Value, Builtin, int, bool, future, result_ok, result_err, Host, Fields, Fallible, type_error,
  undefined_variable, undefined_function, no_websocket_handler, bad_async_body, error_value,
}
use glyphlang.Vm.Machine.{
  Vm, CallFrame, FunctionValue, push, pop, read_operand, constant_at, expect_name,
}
use glyphlang.Vm.Collection.{pop_values}
use glyphlang.Vm.Loader.{parse_layout}

-- execPush
unfoldable pub exec_push : Vm → Fallible Vm
exec_push vm = do (i, vm₁) ← read_operand vm; v ← constant_at i vm₁; ok (push v vm₁)

-- OpPop
unfoldable pub exec_pop : Vm → Fallible Vm
exec_pop vm = do (_, vm₁) ← pop vm; ok vm₁

-- The locals are tried first, then the globals.
unfoldable pub variable_value : Fields → Fields → Str → Fallible Value
variable_value locals globals name = elim (lookup name locals) [
  | some v ↦ ok v
  | none ↦ or_fail (lookup name globals) undefined_variable
]

-- execLoadVar
unfoldable pub exec_load_var : Vm → Fallible Vm
exec_load_var vm = do
  (i, vm₁) ← read_operand vm
  c ← constant_at i vm₁
  name ← expect_name c
  v ← variable_value vm₁.locals vm₁.globals name
  ok (push v vm₁)

-- execStoreVar
unfoldable pub exec_store_var : Vm → Fallible Vm
exec_store_var vm = do
  (i, vm₁) ← read_operand vm
  c ← constant_at i vm₁
  name ← expect_name c
  (v, vm₂) ← pop vm₁
  ok (record vm₂ { locals = insert name v vm₂.locals })

-- execJump
unfoldable pub exec_jump : Vm → Fallible Vm
exec_jump vm = do (target, vm₁) ← read_operand vm; ok (record vm₁ { pc = target })

unfoldable pub expect_bool : Value → Fallible Bool
expect_bool (bool b) = ok b
expect_bool _ = err type_error

-- execJumpIfTrue, at `true`, and execJumpIfFalse, at `false`
unfoldable pub exec_jump_if : Bool → Vm → Fallible Vm
exec_jump_if wanted vm = do
  (target, vm₁) ← read_operand vm
  (v, vm₂) ← pop vm₁
  b ← expect_bool v
  ok (if (if wanted then b else not b) then record vm₂ { pc = target } else vm₂)

-- The loop of execDefFunc over the parameter names.
unfoldable pub read_params : ℕ → Vm → Fallible (List Str × Vm)
read_params zero vm = ok ([], vm)
read_params (suc n) vm = do
  (i, vm₁) ← read_operand vm
  c ← constant_at i vm₁
  name ← expect_name c
  (names, vm₂) ← read_params n vm₁
  ok (name ∷ names, vm₂)

unfoldable pub inline_function : Str → List Str → ℕ → ℕ → FunctionValue
inline_function name params offset length = record {
  name = name;
  param_names = params;
  code_offset = offset;
  code_length = length;
  bytecode = none;
  constants = none;
}

-- execDefFunc
unfoldable pub exec_def_func : Vm → Fallible Vm
exec_def_func vm = do
  (i, vm₁) ← read_operand vm
  c ← constant_at i vm₁
  name ← expect_name c
  (param_count, vm₂) ← read_operand vm₁
  (body_length, vm₃) ← read_operand vm₂
  (params, vm₄) ← read_params param_count vm₃
  let fn = inline_function name params vm₄.pc body_length
  ok (record vm₄ { functions = insert name fn vm₄.functions; pc = vm₄.pc + body_length })

unfoldable pub return_to : List CallFrame → Vm → Vm
return_to [] vm = record vm { halted = true }
return_to (frame ∷ frames) vm = record vm {
  call_stack = frames;
  pc = frame.return_pc;
  locals = frame.locals;
  code = frame.return_bytecode;
  constants = frame.return_constants;
}

-- execReturn. The frames are a list, the innermost first.
unfoldable pub exec_return : Vm → Fallible Vm
unfolding return_to
exec_return vm = ok (return_to vm.call_stack vm)

-- The parameters that have an argument, in order: a later one of the same name wins.
unfoldable pub bind_params : List Str → List Value → Fields → Fields
bind_params (p ∷ ps) (v ∷ vs) locals = bind_params ps vs (insert p v locals)
bind_params _ _ locals = locals

-- if fn.Constants != nil { vm.constants = fn.Constants }
own_constants : Option (List Value) → List Value → List Value
own_constants (some cs) current = cs
own_constants none current = current

-- Where a call of a function continues: in its own bytecode, with its constants if it has any, or
-- in the running code.
unfoldable pub enter_bytecode : Option (List ℕ) → FunctionValue → Vm → Fallible Vm
unfolding own_constants
enter_bytecode none fn vm = ok (record vm { pc = fn.code_offset })
enter_bytecode (some code) fn vm = do
  offset ← parse_layout code
  ok (record vm { code = code; constants = own_constants fn.constants vm.constants; pc = offset })

-- The call of a function of the table.
unfoldable pub enter_function : FunctionValue → List Value → Vm → Fallible Vm
unfolding enter_bytecode
enter_function fn args vm = enter_bytecode fn.bytecode fn (record vm {
  call_stack =
      record {
        return_pc = vm.pc;
        return_bytecode = vm.code;
        return_constants = vm.constants;
        locals = vm.locals;
      }
      ∷ vm.call_stack;
  locals = bind_params fn.param_names args [];
})

-- The dispatch of execCall on what the tables of builtins and functions have under the name.
unfoldable pub call_resolved : Option Builtin → Option FunctionValue → List Value → Vm → Fallible Vm
call_resolved (some builtin) fn args vm = do
  (v, h) ← builtin args vm.heap
  ok (push v (record vm { heap = h }))
call_resolved none (some fn) args vm = enter_function fn args vm
call_resolved none none args vm = err undefined_function

unfoldable pub call_named : Str → List Value → Vm → Fallible Vm
call_named name args vm = call_resolved (lookup name vm.builtins) (lookup name vm.functions) args vm

-- execCall
unfoldable pub exec_call : Vm → Fallible Vm
exec_call vm = do
  (count, vm₁) ← read_operand vm
  (args, vm₂) ← pop_values count [] vm₁
  (fn, vm₃) ← pop vm₂
  name ← expect_name fn
  call_named name args vm₃

-- execHttpReturn
unfoldable pub exec_http_return : Vm → Fallible Vm
exec_http_return vm = do (v, vm₁) ← pop vm; ok (record (push v vm₁) { halted = true })

are_ints : Value → Value → Bool
are_ints (int a) (int b) = true
are_ints _ _ = false

-- execTelemetry, without the debug output
unfoldable pub exec_telemetry : Vm → Fallible Vm
unfolding are_ints
exec_telemetry vm = do
  (val, vm₁) ← pop vm
  (slot, vm₂) ← pop vm₁
  guard (are_ints slot val) type_error
  ok vm₂

-- execAsync: the body is skipped here and run by a goroutine, which is not modelled; its outcome
-- is what the host gives when the future is awaited.
unfoldable pub exec_async : Vm → Fallible Vm
exec_async vm = do
  (body_length, vm₁) ← read_operand vm
  guard (leb (vm₁.pc + body_length) (length vm₁.code)) bad_async_body
  ok (
      push (future vm₁.next_future)
        (record vm₁ { pc = vm₁.pc + body_length; next_future = vm₁.next_future + 1 }))

unfoldable pub await_value : Host → Value → Fallible Value
await_value host (future i) = host.await_result i
await_value host v = ok v

-- execAwait
unfoldable pub exec_await : Host → Vm → Fallible Vm
exec_await host vm = do (v, vm₁) ← pop vm; r ← await_value host v; ok (push r vm₁)

unfoldable pub try_value : Value → Fallible Value
try_value (result_ok v) = ok v
try_value (result_err msg) = err (error_value msg)
try_value v = ok v

-- execTry
unfoldable pub exec_try : Vm → Fallible Vm
exec_try vm = do (v, vm₁) ← pop vm; r ← try_value v; ok (push r vm₁)

-- The WebSocket instructions of a machine without a handler: the two counters read 0, the others
-- fail before they touch the stack.
unfoldable pub exec_ws_counter : Vm → Fallible Vm
exec_ws_counter vm = ok (push (int 0) vm)

unfoldable pub exec_ws_command : Vm → Fallible Vm
exec_ws_command vm = err no_websocket_handler
