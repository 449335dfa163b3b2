-- ===== src/Compiler/Correct/Programs.antt =====
-- Compiled statements on the machine: the statements for clients.
use glyphlang.Prelude.{
  ℕ, suc, ◌+◌, ◌≤◌, ◌<◌, ◌^◌, ◌≡◌, refl, ◌∙◌, ap, subst, true, false, List, [], ◌∷◌, ◌++◌, some, ok,
  err, ◌>>=◌, arith, length, length-append,
}
use glyphlang.Vm.Value.{Value, Host, Fallible}
use glyphlang.Vm.Machine.{Vm, CallFrame, max_stack_size, pop}
use glyphlang.Vm.Control.{return_to}
use glyphlang.Vm.Step.{run_loop, run_result, running}
use glyphlang.Vm.Runs.{Stands, Stands-append}
use glyphlang.Vm.Runs.Loop.{Runs-run_loop}
use glyphlang.Exec.{Env, returned, exec_block, room_for_block}
use glyphlang.Ast.{Block}
use glyphlang.Compiler.State.{Compiler}
use glyphlang.Compiler.State.Pool.{FloatEqLaw, Extends}
use glyphlang.Compiler.Control.{compile_block}
use glyphlang.Compiler.Correct.Emission.{IsReady}
use glyphlang.Compiler.Correct.Jumps.{place}
use glyphlang.Compiler.Correct.Arrivals.{Arrives}
use glyphlang.Compiler.Correct.StatementParts.{exits}
use glyphlang.Compiler.Correct.StatementRuns.{BlockCode-Arrives}
use glyphlang.Compiler.Correct.Placement.{continue_of, with_breaks}
use glyphlang.Compiler.Correct.Settling.{Settled, exec_block-Settled}
use glyphlang.Compiler.Correct.Statements.{IsCoveredBlock, compile_block-Placed}

-- Let statements without for and switch compile, outside any loop, from a state where every name in
-- scope has its constant, with no float literal -0 about, under the law of float comparison. Let the
-- code buffer, less than 2 ^ 32 bytes, stand at the start of a machine's code, with the compiler's
-- pool as the start of the machine's, at most 2 ^ 32 constants, the machine not halted, and room on
-- its stack. From where the code of the statements begins, with any variables and heap, the machine
-- arrives where the reference `exec_block` ends, if that ends within its rounds: at the end of the
-- code, with its variables and heap and the stack as it was; or with its value returned to the
-- caller; or with its error. The reference does not end by a break or a continue.
pub compile_block-Arrives :
    (host : Host)
    → FloatEqLaw host
    → (b : Block) (c c' : Compiler) → compile_block host b c ≡ ok c'
    → IsReady c
    → IsCoveredBlock b
    → c.loop_stack ≡ []
    → (vm : Vm) (s : List Value) (fuel : ℕ) (env : Env) → vm.halted ≡ false
    → Extends c'.constants vm.constants
    → length vm.constants ≤ 2 ^ 32
    → length c'.code < 2 ^ 32
    → Stands vm.code 0 c'.code
    → length s + room_for_block b ≤ max_stack_size
    → Arrives host vm s
        (exits (length c'.code) 0 0)
        (place vm env (length c.code) s)
        (exec_block host vm.globals fuel b env)
      × Settled (exec_block host vm.globals fuel b env)
compile_block-Arrives host law b c c' eq ready covered outside vm s fuel env live pool small fits
      stands room =
    let out = compile_block-Placed host law b c c' eq ready covered in
    let none : continue_of c.loop_stack ≡ 0 = ap continue_of outside in
    let (_, here) =
      Stands-append vm.code 0 c.code (out.bytes 0)
        (subst (λ l. Stands vm.code 0 l) out.pieces.code stands) in
    let begin : 0 + length c.code ≡ length c.code = omega arith in
    let end_at : length c.code + length (out.bytes 0) ≡ length c'.code =
      omega (arith, ap length out.pieces.code, length-append c.code (out.bytes 0)) in
    let code =
      out.implements vm.constants 0 pool small fits (omega arith) (omega (arith, none))
        (omega arith) in
    (
      subst
          (λ cont.
            Arrives host vm s (exits (length c'.code) 0 cont) (place vm env (length c.code) s)
              (exec_block host vm.globals fuel b env))
          none
          (subst
            (λ fin.
              Arrives host vm s (exits fin 0 (continue_of c.loop_stack))
                (place vm env (length c.code) s) (exec_block host vm.globals fuel b env))
            end_at
            (BlockCode-Arrives host vm live s fuel 0 (continue_of c.loop_stack) (length c.code) b
              (out.bytes 0) code env (subst (λ p. Stands vm.code p (out.bytes 0)) begin here)
              room)),
      exec_block-Settled host law vm.globals fuel b c c' env eq ready covered outside,
    )

-- The machine that has returned to no caller.
abbrev pub finished_at : Vm → ℕ → Value × Env → Vm
finished_at vm pc r = record (place vm r.1 pc []) { halted = true }

module _ (host : Host) (vm : Vm) where
  pub returned_loop :
      (r : Value × Env) (pc fuel k : ℕ)
      → vm.call_stack ≡ []
      → run_loop host (suc fuel) k (return_to vm.call_stack (place vm r.1 pc (r.0 ∷ [])))
        ≡ some (ok (r.0, finished_at vm pc r))
  unfolding run_loop running run_result pop return_to
  returned_loop r pc fuel k top =
      ap
        (λ (frames : List CallFrame).
          run_loop host (suc fuel) k (return_to frames (place vm r.1 pc (r.0 ∷ []))))
        top

-- Let statements without for and switch compile, outside any loop, from a state where every name in
-- scope has its constant, with no float literal -0 about, under the law of float comparison. Let the
-- code buffer, less than 2 ^ 32 bytes, stand at the start of a machine's code, with the compiler's
-- pool as the start of the machine's and at most 2 ^ 32 constants; let the machine not be halted,
-- have no step limit, no caller and an empty stack, and the expressions be no deeper than the stack.
-- Where the reference `exec_block` returns a value or fails, the loop of the machine, started where
-- the code of the statements begins with the reference's variables and heap, ends with any fuel
-- above some number: with this value, halted, its stack empty and with the variables and the heap
-- that the reference has left, or with this error.
pub compile_block-run_loop :
    (host : Host)
    → FloatEqLaw host
    → (b : Block) (c c' : Compiler) → compile_block host b c ≡ ok c'
    → IsReady c
    → IsCoveredBlock b
    → c.loop_stack ≡ []
    → (vm : Vm) (fuel : ℕ) (env : Env) → vm.halted ≡ false
    → vm.call_stack ≡ []
    → vm.max_steps ≡ 0
    → Extends c'.constants vm.constants
    → length vm.constants ≤ 2 ^ 32
    → length c'.code < 2 ^ 32
    → Stands vm.code 0 c'.code
    → room_for_block b ≤ max_stack_size
    → (r : Fallible (Value × Env))
    → exec_block host vm.globals fuel b env ≡ some (r >>= λ x. ok (returned x.0 x.1))
    → (n : ℕ) × (pc : ℕ) × ((extra : ℕ)
        → run_loop host (n + suc (suc extra)) 0 (place vm env (length c.code) [])
          ≡ some (r >>= λ x. ok (x.0, finished_at vm pc x)))
compile_block-run_loop host law b c c' eq ready covered outside vm fuel env live top free pool small
      fits stands room r e =
    go r (
      subst
        (λ m. Arrives host vm [] (exits (length c'.code) 0 0) (place vm env (length c.code) []) m) e
        (compile_block-Arrives host law b c c' eq ready covered outside vm [] fuel env live pool
          small fits stands (omega arith)).0)
  where
    go :
        (r : Fallible (Value × Env))
        → Arrives host vm []
            (exits (length c'.code) 0 0)
            (place vm env (length c.code) [])
            (some (r >>= λ x. ok (returned x.0 x.1)))
        → (n : ℕ) × (pc : ℕ) × ((extra : ℕ)
            → run_loop host (n + suc (suc extra)) 0 (place vm env (length c.code) [])
              ≡ some (r >>= λ x. ok (x.0, finished_at vm pc x)))
    go (ok x) (pc, run) =
        let (n, loop) = Runs-run_loop host run free in
        (
          n,
          pc,
          λ extra.
              let (k, done) = loop (n + suc (suc extra)) (suc extra) 0 refl in
              done ∙ returned_loop host vm x pc (suc extra) k top,
        )
    go (err f) run =
        let (n, loop) = Runs-run_loop host run free in
        (n, 0, λ extra. let (k, done) = loop (n + suc (suc extra)) (suc extra) 0 refl in done)

-- Code and constants were added behind what was there, the scopes around the current one are as
-- before, and of the loops only the breaks of the innermost one have grown.
pub record Appends (c c' : Compiler) : Type 0 where
  pub code : (bytes : List ℕ) × (c'.code ≡ c.code ++ bytes)
  pub constants : Extends c.constants c'.constants
  pub outer : c'.symbol_table.parents ≡ c.symbol_table.parents
  pub loops : (breaks : List ℕ) × (c'.loop_stack ≡ with_breaks breaks c.loop_stack)
  pub ready : IsReady c'

-- Statements without for and switch that compile, in a loop or not, from a state where every name in
-- scope has its constant, with no float literal -0 about, under the law of float comparison: code
-- and constants are added at the end only, jumps that are patched included; the scopes around the
-- current one are as before; the loop stack has got no more than breaks of the innermost loop; and
-- every name in scope has its constant again.
pub compile_block-Appends :
    (host : Host)
    → FloatEqLaw host
    → (b : Block) (c c' : Compiler) → compile_block host b c ≡ ok c'
    → IsReady c
    → IsCoveredBlock b
    → Appends c c'
compile_block-Appends host law b c c' eq ready covered =
    let out = compile_block-Placed host law b c c' eq ready covered in
    record {
      code = (out.bytes 0, out.pieces.code);
      constants = out.grows;
      outer = out.outer;
      loops = (out.jumps, out.loops);
      ready = out.ready;
    }
