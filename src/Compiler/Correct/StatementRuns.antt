-- ===== src/Compiler/Correct/StatementRuns.antt =====
-- Code for a statement, run by the machine, does what the statement means.
use glyphlang.Prelude.{ℕ, ◌+◌, ◌≡◌, subst, false, List, some, ok, arith, length, length-append}
use glyphlang.Vm.Value.{Value, Host}
use glyphlang.Vm.Machine.{Vm}
use glyphlang.Vm.Opcode.{op_pop, op_return}
use glyphlang.Vm.Runs.{Runs, finished, Stands-append}
use glyphlang.Exec.{Env, normal, returned, exec, exec_block, room_for, room_for_block}
use glyphlang.Ast.{Statement, Block}
use glyphlang.Compiler.Correct.Code.{plain}
use glyphlang.Compiler.Correct.Jumps.{place, Runs-pop, Runs-jump, Runs-return}
use glyphlang.Compiler.Correct.Arrivals.{and_then-Arrives}
use glyphlang.Compiler.Correct.StatementCode.{
  StatementCode, BlockCode, assign_statement, reassign_statement, return_statement,
  expression_statement, validation_statement, break_statement, continue_statement, if_statement,
  while_statement, no_statements, statement,
}
use glyphlang.Compiler.Correct.StatementParts.{exits, value_then, store_then, shifted}
use glyphlang.Compiler.Correct.StatementBodies.{Does, DoesBlock, if-Does, while-Does}

module _ (host : Host) (vm : Vm) (live : vm.halted ≡ false) (s : List Value) (fuel : ℕ) where
  -- No code, and no step.
  stays : (pc : ℕ) (env : Env) → Runs host (place vm env pc s) (ok (place vm env (pc + 0) s))
  stays pc env =
      let e : pc ≡ pc + 0 = omega arith in
      subst (λ p. Runs host (place vm env pc s) (ok (place vm env p s))) e
        (finished (place vm env pc s))

  mutual
    unfolding exec exec_block room_for room_for_block

    does :
        {brk cont pc : ℕ} {st : Statement} {bs : List ℕ}
        → StatementCode vm.constants brk cont pc st bs
        → Does host vm live s fuel brk cont pc st bs
    does (assign_statement brk cont pc name i code k) env stands room =
        store_then host vm live s _ _ i brk cont pc env name code k stands room
    does (reassign_statement brk cont pc name i code k) env stands room =
        store_then host vm live s _ _ i brk cont pc env name code k stands room
    does (return_statement brk cont pc {xs = xs} code) env stands room =
        value_then host vm live s _ xs (plain op_return) brk cont pc env
          (λ r. some (ok (returned r.0 (record env { heap = r.1 })))) code stands room
          λ here r. (
            pc + length xs + 1,
            Runs-return host vm live (record env { heap = r.1 }) (pc + length xs) _ here,
          )
    does (expression_statement brk cont pc {xs = xs} code) env stands room =
        value_then host vm live s _ xs (plain op_pop) brk cont pc env
          (λ r. some (ok (normal (record env { heap = r.1 })))) code stands room
          λ here r. Runs-pop host vm live (record env { heap = r.1 }) (pc + length xs) r.0 s here
    does (validation_statement brk cont pc) env stands room = stays pc env
    does (break_statement brk cont pc small) env stands room =
        Runs-jump host vm live env brk pc s small stands
    does (continue_statement brk cont pc small) env stands room =
        Runs-jump host vm live env cont pc s small stands
    does (if_statement brk cont pc else_at end_at code t p f q small) env stands room =
        if-Does host vm live s fuel brk cont pc else_at end_at _ _ _ _ _ _ code (block_does t) p
          (block_does f) q small env stands room
    does (while_statement brk cont pc end_at code body p small) env stands room =
        while-Does host vm live s fuel brk cont pc end_at _ _ _ _ code (block_does body) p small env
          stands room

    block_does :
        {brk cont pc : ℕ} {b : Block} {bs : List ℕ}
        → BlockCode vm.constants brk cont pc b bs
        → DoesBlock host vm live s fuel brk cont pc b bs
    block_does (no_statements brk cont pc) env stands room = stays pc env
    block_does (statement brk cont pc {rest = rest} {xs} {ys} code codes) env stands room =
        let (here, there) = Stands-append vm.code pc xs ys stands in
        shifted host vm live s brk cont _ _ (omega (arith, length-append {0} xs ys)) (
          and_then-Arrives host vm s (exits (pc + length xs + length ys) brk cont) (pc + length xs)
            _ _ (exec_block host vm.globals fuel rest) (does code env here (omega arith))
            λ env₁. block_does codes env₁ there (omega arith))

  -- Wherever code for a block stands, the machine arrives where the reference says.
  pub BlockCode-Arrives :
      (brk cont pc : ℕ) (b : Block) (bs : List ℕ)
      → BlockCode vm.constants brk cont pc b bs
      → DoesBlock host vm live s fuel brk cont pc b bs
  BlockCode-Arrives brk cont pc b bs code = block_does code
