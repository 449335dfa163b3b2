-- ===== src/Compiler/Correct/Leaving.antt =====
-- Break and continue: what compiling them appends is code for them.
use glyphlang.Prelude.{ℕ, ◌≡◌, refl, sym, ap, subst, List, [], ◌∷◌, ◌++◌, ok, err, arith, length}
use glyphlang.Vm.Opcode.{op_jump}
use glyphlang.Ast.{Statement}
use glyphlang.Compiler.State.{
  Compiler, LoopContext, break_outside_loop, continue_outside_loop, emit_with_operand,
}
use glyphlang.Compiler.State.Pool.{Extends-refl}
use glyphlang.Compiler.Expression.{to_u32}
use glyphlang.Compiler.Control.{compile_break, compile_continue}
use glyphlang.Compiler.Correct.Code.{with_operand}
use glyphlang.Compiler.Correct.Emission.{IsReady}
use glyphlang.Compiler.Correct.StatementCode.{StatementCode, break_statement, continue_statement}
use glyphlang.Compiler.Correct.Pieces.{Pieces-fixed, Pieces-break}
use glyphlang.Compiler.Correct.Leaves.{CodeForStatement}
use glyphlang.Compiler.Correct.Placement.{Placed, with_breaks, with_breaks-nil, continue_of}

pub break-Placed :
    (c c' : Compiler)
    → compile_break c ≡ ok c'
    → IsReady c
    → Placed (CodeForStatement Statement.break_statement) c c'
unfolding compile_break emit_with_operand
break-Placed c c' eq ready = go c.loop_stack refl eq
  where
    go :
        (loops : List LoopContext)
        → c.loop_stack ≡ loops
        → (elim loops [
          | [] ↦ err break_outside_loop
          | loop ∷ outer ↦ ok (record (emit_with_operand op_jump 0 c) {
            loop_stack =
                record loop { break_jumps = loop.break_jumps ++ length c.code ∷ [] } ∷ outer;
          })
        ])
          ≡ ok c'
        → Placed (CodeForStatement Statement.break_statement) c c'
    go [] p eq = cc
    go (loop ∷ outer) p eq =
        let same : record (emit_with_operand op_jump 0 c) {
          loop_stack = record loop { break_jumps = loop.break_jumps ++ length c.code ∷ [] } ∷ outer;
        }
            ≡ c' =
          cc in
        subst (Placed (CodeForStatement Statement.break_statement) c) same (record {
          bytes = λ t. with_operand op_jump (to_u32 t);
          jumps = length c.code ∷ [];
          pieces = Pieces-break c.code;
          loops = sym (ap (with_breaks (length c.code ∷ [])) p);
          outer = refl;
          ready = record { names = ready.names; clean = ready.clean };
          grows = Extends-refl c.constants;
          implements = λ pool brk x small fits b k room.
              let e : brk ≡ to_u32 brk = omega arith in
              subst
                (λ (t : ℕ).
                  StatementCode pool brk (continue_of c.loop_stack) (length c.code)
                    Statement.break_statement (with_operand op_jump t))
                e (break_statement brk _ _ b);
        })

pub continue-Placed :
    (c c' : Compiler)
    → compile_continue c ≡ ok c'
    → IsReady c
    → Placed (CodeForStatement Statement.continue_statement) c c'
unfolding compile_continue emit_with_operand
continue-Placed c c' eq ready = go c.loop_stack refl eq
  where
    go :
        (loops : List LoopContext)
        → c.loop_stack ≡ loops
        → (elim loops [
          | [] ↦ err continue_outside_loop
          | loop ∷ outer ↦ ok (emit_with_operand op_jump (to_u32 loop.continue_target) c)
        ])
          ≡ ok c'
        → Placed (CodeForStatement Statement.continue_statement) c c'
    go [] p eq = cc
    go (loop ∷ outer) p eq =
        let t = loop.continue_target in
        let same : emit_with_operand op_jump (to_u32 t) c ≡ c' = cc in
        let target : continue_of c.loop_stack ≡ t = ap continue_of p in
        subst (Placed (CodeForStatement Statement.continue_statement) c) same (record {
          bytes = λ _. with_operand op_jump (to_u32 t);
          jumps = [];
          pieces = Pieces-fixed c.code _ (with_operand op_jump (to_u32 t)) refl;
          loops = sym (with_breaks-nil c.loop_stack);
          outer = refl;
          ready = record { names = ready.names; clean = ready.clean };
          grows = Extends-refl c.constants;
          implements = λ pool brk x small fits b k room.
              let e : continue_of c.loop_stack ≡ to_u32 t = omega (arith, target) in
              subst
                (λ (u : ℕ).
                  StatementCode pool brk (continue_of c.loop_stack) (length c.code)
                    Statement.continue_statement (with_operand op_jump u))
                e (continue_statement brk _ _ k);
        })
