-- ===== src/Compiler/Correct/Jumps.antt =====
-- What the instructions of statements do on the machine: stores, pops, jumps and branches.
use glyphlang.Prelude.{
  ℕ, ◌+◌, ◌<◌, ◌^◌, ◌≡◌, refl, Bool, true, false, not, List, ◌∷◌, ok, err, ◌>>=◌, arith,
  if◌then◌else◌,
}
use glyphlang.Prelude.Maps.{Str}
use glyphlang.Vm.Value.{Value, str, Host, Fallible}
use glyphlang.Vm.Opcode.{op_pop, op_store_var, op_jump, op_jump_if_false, op_return}
use glyphlang.Vm.Machine.{Vm, pop, constant_at, expect_name}
use glyphlang.Vm.Control.{
  exec_store_var, exec_pop, exec_jump, exec_jump_if, exec_return, expect_bool, return_to,
}
use glyphlang.Vm.Step.{execute}
use glyphlang.Vm.Runs.{Runs, Stands, state, operand_at}
use glyphlang.Vm.Runs.Instructions.{Runs-opcode}
use glyphlang.Exec.{Env, assigned}
use glyphlang.Compiler.Correct.Code.{Holds, plain, with_operand}

-- The machine at a place in the code, with the variables and the heap of `env` and a stack.
abbrev pub place : Vm → Env → ℕ → List Value → Vm
place vm env pc s = state (record vm { locals = env.locals }) pc s env.heap

module _ (host : Host) (vm : Vm) (live : vm.halted ≡ false) (env : Env) where
  pub Runs-store :
      (i pc : ℕ) (name : Str) (v : Value) (s : List Value)
      → Holds vm.constants i (str name)
      → Stands vm.code pc (with_operand op_store_var i)
      → Runs host
          (place vm env pc (v ∷ s))
          (ok (place vm (assigned name env (v, env.heap)) (pc + 5) s))
  unfolding execute exec_store_var constant_at expect_name pop
  Runs-store i pc name v s k (here, operand) =
      let e : pc + 1 + 4 ≡ pc + 5 = omega arith in
      let vm' : Vm = record vm { locals = env.locals } in
      Runs-opcode host vm' live op_store_var pc (v ∷ s) env.heap refl here
        (rw (operand_at host vm' i (pc + 1) (v ∷ s) env.heap k.small operand, k.found, e) refl)

  pub Runs-pop :
      (pc : ℕ) (v : Value) (s : List Value)
      → Stands vm.code pc (plain op_pop)
      → Runs host (place vm env pc (v ∷ s)) (ok (place vm env (pc + 1) s))
  unfolding execute exec_pop pop
  Runs-pop pc v s (here, _) =
      let vm' : Vm = record vm { locals = env.locals } in
      Runs-opcode host vm' live op_pop pc (v ∷ s) env.heap refl here refl

  pub Runs-jump :
      (target pc : ℕ) (s : List Value)
      → target < 2 ^ 32
      → Stands vm.code pc (with_operand op_jump target)
      → Runs host (place vm env pc s) (ok (place vm env target s))
  unfolding execute exec_jump
  Runs-jump target pc s small (here, operand) =
      let vm' : Vm = record vm { locals = env.locals } in
      Runs-opcode host vm' live op_jump pc s env.heap refl here
        (rw (operand_at host vm' target (pc + 1) s env.heap small operand) refl)

  -- A branch fails on what is no boolean.
  pub Runs-branch :
      (target pc : ℕ) (v : Value) (s : List Value)
      → target < 2 ^ 32
      → Stands vm.code pc (with_operand op_jump_if_false target)
      → Runs host
          (place vm env pc (v ∷ s))
          (expect_bool v >>= λ b. ok (place vm env (if b then pc + 5 else target) s))
  unfolding execute exec_jump_if pop
  Runs-branch target pc v s small (here, operand) =
      let e : pc + 1 + 4 ≡ pc + 5 = omega arith in
      let vm' : Vm = record vm { locals = env.locals } in
      Runs-opcode host vm' live op_jump_if_false pc (v ∷ s) env.heap refl here (
        rw (operand_at host vm' target (pc + 1) (v ∷ s) env.heap small operand, e)
          (go (expect_bool v)))
    where
      go :
          (r : Fallible Bool)
          → (r >>= λ b. ok (if not b then place vm env target s else place vm env (pc + 5) s))
            ≡ (r >>= λ b. ok (place vm env (if b then pc + 5 else target) s))
      go (ok true) = refl
      go (ok false) = refl
      go (err x) = refl

  pub Runs-return :
      (pc : ℕ) (s : List Value)
      → Stands vm.code pc (plain op_return)
      → Runs host (place vm env pc s) (ok (return_to vm.call_stack (place vm env (pc + 1) s)))
  unfolding execute exec_return
  Runs-return pc s (here, _) =
      let vm' : Vm = record vm { locals = env.locals } in
      Runs-opcode host vm' live op_return pc s env.heap refl here refl
