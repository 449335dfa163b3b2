-- ===== src/Compiler/Routes/Calling.antt =====
-- Compiled functions, from the source's body to a call by the machine and the return to the caller.
use glyphlang.Prelude.{ℕ, ◌≡◌, List, [], ◌∷◌, some, none, ok, ◌>>=◌}
use glyphlang.Prelude.Maps.{Str, lookup}
use glyphlang.Vm.Value.{Value, Host, Fallible}
use glyphlang.Vm.Machine.{Vm, FunctionValue}
use glyphlang.Vm.Control.{bind_params, call_named}
use glyphlang.Vm.Runs.{Runs}
use glyphlang.Exec.{Env, Outcome}
use glyphlang.Compiler.State.{Compiler}
use glyphlang.Compiler.Routes.Running.{answer}

-- The function's table entry: its own container, with the constants of it.
pub record IsCallable (vm : Vm) (name : Str) (params : List Str) (bytes : List ℕ)
    (pool : List Value) : Type 0 where
  pub fn : FunctionValue
  pub no_builtin : lookup name vm.builtins ≡ none
  pub registered : lookup name vm.functions ≡ some fn
  pub takes : fn.param_names ≡ params
  pub container : fn.bytecode ≡ some bytes
  pub constants : fn.constants ≡ some pool

-- The variables and the heap with which the body of a called function begins.
abbrev pub called_env : List Str → List Value → Vm → Env
called_env params args vm = record { locals = bind_params params args []; heap = vm.heap }

-- The caller behind the call: as it was, with the value on its stack and the heap that the function
-- has left.
abbrev pub back_at : Vm → Value × Env → Vm
back_at vm r = record vm { stack = r.0 ∷ vm.stack; heap = r.1.heap }

-- The call enters the function, from where the machine comes back to the caller as the outcome
-- says, or to its error.
pub record Calls (host : Host) (name : Str) (args : List Value) (vm : Vm) (m : Fallible Outcome)
    : Type 0 where
  pub entered : Vm
  pub enters : call_named name args vm ≡ ok entered
  pub run : Runs host entered (m >>= λ o. ok (back_at vm (answer o)))

-- The machine in the function.
abbrev inside : List Value → List ℕ → Vm → Vm
inside pool bytes vm = record vm {
  code = bytes;
  constants = pool;
  call_stack =
      record {
        return_pc = vm.pc;
        return_bytecode = vm.code;
        return_constants = vm.constants;
        locals = vm.locals;
      }
      ∷ vm.call_stack;
}
