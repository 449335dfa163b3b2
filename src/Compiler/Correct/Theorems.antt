-- ===== src/Compiler/Correct/Theorems.antt =====
-- The compiled expression on the machine: the statements for clients.
use glyphlang.Prelude.{
  ℕ, ◌+◌, ◌≤◌, ◌^◌, ◌≡◌, ap, subst, false, List, ◌∷◌, ok, ◌>>=◌, arith, length, length-append,
}
use glyphlang.Eval.{eval, depth}
use glyphlang.Vm.Value.{Value, Host, Heap}
use glyphlang.Vm.Machine.{Vm, max_stack_size}
use glyphlang.Vm.Runs.{Runs, Stands, Stands-append, state}
use glyphlang.Ast.{Expr}
use glyphlang.Compiler.State.{Compiler}
use glyphlang.Compiler.State.Pool.{FloatEqLaw, Extends}
use glyphlang.Compiler.Expression.{compile_expression}
use glyphlang.Compiler.Correct.Steps.{lands, at_pc}
use glyphlang.Compiler.Correct.Execution.{Code-Computes}
use glyphlang.Compiler.Correct.Emission.{IsReady}
use glyphlang.Compiler.Correct.Whole.{CleanExpr, compile_expression-Emits}

-- Let an expression compile, from a state where every name in scope has its constant, with no
-- float literal -0 about. Wherever the code buffer stands in a machine's code, with the compiler's
-- pool as the start of the machine's, at most 2 ^ 32 constants, and room on the stack: the machine
-- runs from where the expression's code begins to where it ends, and has pushed the value that
-- `eval` gives, in the heap that `eval` gives, all else unchanged; or it fails with `eval`'s error.
pub compile_expression-Runs :
    (host : Host)
    → FloatEqLaw host
    → (e : Expr) (c c' : Compiler) → compile_expression host e c ≡ ok c'
    → IsReady c
    → CleanExpr e
    → (vm : Vm) (base : ℕ) (s : List Value) (h : Heap) → vm.halted ≡ false
    → Extends c'.constants vm.constants
    → length vm.constants ≤ 2 ^ 32
    → Stands vm.code base c'.code
    → length s + depth e ≤ max_stack_size
    → Runs host
        (state vm (base + length c.code) s h)
        (eval host vm.locals vm.globals e h >>= λ r. ok (lands vm (base + length c'.code) s r))
compile_expression-Runs host law e c c' eq ready clean vm base s h live pool small stands room =
    let out = compile_expression-Emits host law e c c' eq ready clean in
    let (_, here) =
      Stands-append vm.code base c.code out.bytes
        (subst (λ l. Stands vm.code base l) out.code stands) in
    at_pc host vm live (eval host vm.locals vm.globals e h) (λ r. (r.0 ∷ s, r.1))
      (omega (arith, ap length out.code, length-append {0} c.code out.bytes))
      (Code-Computes host vm live e out.bytes (out.implements vm.constants pool small (omega arith))
        (base + length c.code) s h here room)
