-- ===== src/Compiler/Correct/Return.antt =====
-- A compiled return statement, run by the loop.
use glyphlang.Prelude.{
  ℕ, suc, ◌+◌, ◌≤◌, ◌^◌, ◌≡◌, refl, sym, ◌∙◌, ap, subst, true, false, List, [], ◌∷◌, ◌++◌, some, ok,
  err, ◌>>=◌, >>=-eq-ok, arith, length, length-append, get_elem?,
}
use glyphlang.Eval.{eval, depth}
use glyphlang.Vm.Value.{Value, Host, Heap, Fallible}
use glyphlang.Vm.Opcode.{opcode_byte, op_return}
use glyphlang.Vm.Machine.{Vm, CallFrame, max_stack_size, pop}
use glyphlang.Vm.Control.{exec_return, return_to}
use glyphlang.Vm.Step.{execute, run_loop, run_result, running}
use glyphlang.Vm.Runs.{Runs, Runs-then, Stands, Stands-append, state}
use glyphlang.Vm.Runs.Instructions.{Runs-opcode}
use glyphlang.Vm.Runs.Loop.{continues, Runs-run_loop}
use glyphlang.Ast.{Expr}
use glyphlang.Compiler.State.{Compiler, emit}
use glyphlang.Compiler.State.Pool.{FloatEqLaw, Extends}
use glyphlang.Compiler.Expression.{compile_expression}
use glyphlang.Compiler.Statement.{compile_return}
use glyphlang.Compiler.Correct.Steps.{lands}
use glyphlang.Compiler.Correct.Emission.{IsReady}
use glyphlang.Compiler.Correct.Whole.{CleanExpr}
use glyphlang.Compiler.Correct.Theorems.{compile_expression-Runs}

-- The machine that has stopped, with the value still on the stack, and after its removal.
abbrev stopped : Vm → ℕ → Value × Heap → Vm
stopped vm pc r = record vm { pc = pc; stack = r.0 ∷ []; heap = r.1; halted = true }

abbrev pub emptied : Vm → ℕ → Heap → Vm
emptied vm pc h = record vm { pc = pc; stack = []; heap = h; halted = true }

module _ (host : Host) (vm : Vm) (live : vm.halted ≡ false) (top : vm.call_stack ≡ []) where
  return_halts :
      (pc : ℕ) (s : List Value) (h : Heap)
      → get_elem? vm.code pc ≡ some (opcode_byte op_return)
      → Runs host (state vm pc s h) (ok (record (state vm (pc + 1) s h) { halted = true }))
  unfolding execute exec_return
  return_halts pc s h here =
      Runs-opcode host vm live op_return pc s h refl here
        (ap (λ (frames : List CallFrame). ok (return_to frames (state vm (pc + 1) s h))) top)

  loop_ends :
      (r : Fallible (Value × Heap)) (pc fuel k : ℕ)
      → continues host (suc fuel) k (r >>= λ x. ok (stopped vm pc x))
        ≡ some (r >>= λ x. ok (x.0, emptied vm pc x.1))
  unfolding run_loop running run_result pop
  loop_ends (ok x) pc fuel k = refl
  loop_ends (err e) pc fuel k = refl

return_place :
    (vm : Vm) (base : ℕ) (c₁ c' : Compiler)
    → emit op_return c₁ ≡ c'
    → Stands vm.code base c'.code
    → Stands vm.code base c₁.code
      × (get_elem? vm.code (base + length c₁.code) ≡ some (opcode_byte op_return))
      × (base + length c₁.code + 1 ≡ base + length c'.code)
unfolding emit
return_place vm base c₁ c' e stands =
    let code : c'.code ≡ c₁.code ++ opcode_byte op_return ∷ [] =
      sym (ap (λ (c : Compiler). c.code) e) in
    let (before, (here, _)) =
      Stands-append vm.code base c₁.code (opcode_byte op_return ∷ [])
        (subst (λ l. Stands vm.code base l) code stands) in
    (
      before,
      here,
      omega (arith, ap length code, length-append {0} c₁.code (opcode_byte op_return ∷ [])),
    )

-- Let a return statement compile, from a state where every name in scope has its constant, with no
-- float literal -0 about, and let its code stand in the code of a machine that is not halted, has
-- no step limit, no caller and an empty stack, with the compiler's pool as the start of the
-- machine's, at most 2 ^ 32 constants, and an expression no deeper than the stack. Then the loop
-- of the machine ends, with any fuel above some number, and returns the value that `eval` gives,
-- with the machine halted, its stack empty and `eval`'s heap; or it returns `eval`'s error.
pub compile_return-run_loop :
    (host : Host)
    → FloatEqLaw host
    → (e : Expr) (c c' : Compiler) → compile_return host e c ≡ ok c'
    → IsReady c
    → CleanExpr e
    → (vm : Vm) (base : ℕ) (h : Heap) → vm.halted ≡ false
    → vm.call_stack ≡ []
    → vm.max_steps ≡ 0
    → Extends c'.constants vm.constants
    → length vm.constants ≤ 2 ^ 32
    → Stands vm.code base c'.code
    → depth e ≤ max_stack_size
    → (n : ℕ) × ((extra : ℕ)
        → run_loop host (n + suc (suc extra)) 0 (state vm (base + length c.code) [] h)
          ≡ some (
              eval host vm.locals vm.globals e h >>= λ r.
              ok (r.0, emptied vm (base + length c'.code) r.1)))
unfolding compile_return emit
compile_return-run_loop host law e c c' eq ready clean vm base h live top free pool small stands
      room =
    let (c₁, compiled, emitted) =
      >>=-eq-ok (compile_expression host e c) (λ d. ok (emit op_return d)) eq in
    let same : emit op_return c₁ ≡ c' = cc in
    let (before, here, place) = return_place vm base c₁ c' same stands in
    let run : Runs host (state vm (base + length c.code) [] h)
        (eval host vm.locals vm.globals e h >>= λ r. ok (lands vm (base + length c₁.code) [] r)) =
      compile_expression-Runs host law e c c₁ compiled ready clean vm base [] h live
        (subst (λ d. Extends d.constants vm.constants) (sym same) pool) small before
        (omega arith) in
    let whole =
      Runs-then host (eval host vm.locals vm.globals e h) run
        (λ r _. return_halts host vm live top (base + length c₁.code) (r.0 ∷ []) r.1 here) in
    let (n, loop) = Runs-run_loop host whole free in
    (
      n,
      λ extra.
          let (k, done) = loop (n + suc (suc extra)) (suc extra) 0 refl in
          done
          ∙ loop_ends host vm live top (eval host vm.locals vm.globals e h)
              (base + length c₁.code + 1) (suc extra) k
          ∙ ap
              (λ (p : ℕ).
                some (eval host vm.locals vm.globals e h >>= λ r. ok (r.0, emptied vm p r.1)))
              place,
    )
