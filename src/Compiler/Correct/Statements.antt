-- ===== src/Compiler/Correct/Statements.antt =====
-- compileStatement emits code for its statement.
use glyphlang.Prelude.{ℕ, ◌+◌, ◌≡◌, subst, List, ◌++◌, ok, >>=-eq-ok, arith, length}
use glyphlang.Vm.Value.{Host}
use glyphlang.Vm.Opcode.{op_jump, op_jump_if_false}
use glyphlang.Exec.{room_for_block}
use glyphlang.Ast.{Statement, Block}
use glyphlang.Compiler.State.{Compiler, emit_with_operand}
use glyphlang.Compiler.State.Pool.{FloatEqLaw}
use glyphlang.Compiler.Expression.{to_u32, compile_expression}
use glyphlang.Compiler.Control.{
  compile_statement, compile_block, compile_else, enter_block, leave_block, patch_jump, push_loop,
  pop_loop,
}
use glyphlang.Compiler.Correct.Emission.{IsReady, Emits, Emits-IsReady}
use glyphlang.Compiler.Correct.Whole.{CleanExpr, compile_expression-Emits}
use glyphlang.Compiler.Correct.StatementCode.{validation_statement, no_statements, statement}
use glyphlang.Compiler.Correct.Placement.{Placed, Placed-seq}
use glyphlang.Compiler.Correct.Leaves.{
  CodeForStatement, empty-Placed, assign-Placed, reassign-Placed, return-Placed, expression-Placed,
}
use glyphlang.Compiler.Correct.Leaving.{break-Placed, continue-Placed}
use glyphlang.Compiler.Correct.Nesting.{CodeForBlock, enter_block-IsReady, scope-Placed}
use glyphlang.Compiler.Correct.Branching.{if-Placed, while-Placed}

-- No literal is the float -0, and there are no for and no switch statements.
unfoldable mutual
  pub IsCovered : Statement → Type 0
  IsCovered (Statement.assign_statement name e) = CleanExpr e
  IsCovered (Statement.reassign_statement name e) = CleanExpr e
  IsCovered (Statement.return_statement e) = CleanExpr e
  IsCovered (Statement.expression_statement e) = CleanExpr e
  IsCovered Statement.validation_statement = Unit {0}
  IsCovered Statement.break_statement = Unit {0}
  IsCovered Statement.continue_statement = Unit {0}
  IsCovered (Statement.if_statement e t f) = CleanExpr e × IsCoveredBlock t × IsCoveredBlock f
  IsCovered (Statement.while_statement e body) = CleanExpr e × IsCoveredBlock body
  IsCovered (Statement.for_statement key name iterable body) = ⊥
  IsCovered (Statement.switch_statement value cases default_block) = ⊥

  pub IsCoveredBlock : Block → Type 0
  IsCoveredBlock Block.no_statements = Unit {0}
  IsCoveredBlock (Block.statement s rest) = IsCovered s × IsCoveredBlock rest

block_joined :
    (s : Statement) (rest : Block) (pool : _) (brk cont pc : ℕ) (xs ys : List ℕ)
    → CodeForStatement s pool brk cont pc xs
    → CodeForBlock rest pool brk cont (pc + length xs) ys
    → CodeForBlock (Block.statement s rest) pool brk cont pc (xs ++ ys)
unfolding room_for_block
block_joined s rest pool brk cont pc xs ys code codes room =
    statement brk cont pc (code (omega arith)) (codes (omega arith))

module _ (host : Host) (law : FloatEqLaw host) where
  -- The compiler stays ready after the first jump of a statement.
  pub IsReady-after :
      {P : _} (c a : Compiler) (n : ℕ)
      → IsReady c
      → Emits P c a
      → IsReady (emit_with_operand op_jump_if_false n a)
  unfolding emit_with_operand
  IsReady-after c a n ready e =
      let r = Emits-IsReady c a e ready in record { names = r.names; clean = r.clean }

  pushed-IsReady :
      {P : _} (top : ℕ) (c a : Compiler)
      → IsReady c
      → Emits P c a
      → IsReady (push_loop top (emit_with_operand op_jump_if_false 0 a))
  unfolding push_loop
  pushed-IsReady top c a ready e =
      let r = IsReady-after c a 0 ready e in record { names = r.names; clean = r.clean }

  pub patched-IsReady :
      (i t : ℕ) (c : Compiler)
      → IsReady c
      → IsReady (patch_jump i t (emit_with_operand op_jump 0 c))
  unfolding patch_jump emit_with_operand
  patched-IsReady i t c ready = record { names = ready.names; clean = ready.clean }

  mutual
    unfolding compile_statement compile_block compile_else IsCovered IsCoveredBlock

    placed :
        (s : Statement) (c c' : Compiler)
        → compile_statement host s c ≡ ok c'
        → IsReady c
        → IsCovered s
        → Placed (CodeForStatement s) c c'
    placed (Statement.assign_statement name e) c c' eq ready k =
        assign-Placed host law name e c c' eq ready k
    placed (Statement.reassign_statement name e) c c' eq ready k =
        reassign-Placed host law name e c c' eq ready k
    placed (Statement.return_statement e) c c' eq ready k = return-Placed host law e c c' eq ready k
    placed (Statement.expression_statement e) c c' eq ready k =
        expression-Placed host law e c c' eq ready k
    placed Statement.validation_statement c c' eq ready k =
        let same : c ≡ c' = cc in
        subst (Placed (CodeForStatement Statement.validation_statement) c) same
          (empty-Placed c ready λ pool brk cont pc room. validation_statement brk cont pc)
    placed Statement.break_statement c c' eq ready k = break-Placed c c' eq ready
    placed Statement.continue_statement c c' eq ready k = continue-Placed c c' eq ready
    placed (Statement.for_statement key name iterable body) c c' eq ready k = elim k [ ]
    placed (Statement.switch_statement value cases default_block) c c' eq ready k = elim k [ ]
    placed (Statement.if_statement e t f) c c' eq ready (ke, kt, kf) =
        let (a, p, q) = >>=-eq-ok (compile_expression host e c) _ eq in
        let start = emit_with_operand op_jump_if_false 0 a in
        let (b, p₁, q₁) = >>=-eq-ok (compile_block host t (enter_block start)) _ q in
        let left = leave_block b in
        let jumped = emit_with_operand op_jump 0 left in
        let patched = patch_jump (length a.code) (length jumped.code) jumped in
        let (d, p₂, last) =
          >>=-eq-ok (compile_else host f patched)
            (λ x. ok (patch_jump (length left.code) (length x.code) x)) q₁ in
        let same : patch_jump (length left.code) (length d.code) d ≡ c' = cc in
        let test = compile_expression-Emits host law e c a p ready ke in
        let ready₁ = IsReady-after c a 0 ready test in
        let then_part =
          scope-Placed start b ready₁
            (block-Placed t (enter_block start) b p₁ (enter_block-IsReady start ready₁) kt) in
        let ready₂ = patched-IsReady (length a.code) (length jumped.code) left then_part.ready in
        subst (Placed (CodeForStatement (Statement.if_statement e t f)) c) same
          (if-Placed e t f c a left d test then_part (else-Placed f patched d p₂ ready₂ kf))
    placed (Statement.while_statement e body) c c' eq ready (ke, kb) =
        let (a, p, q) = >>=-eq-ok (compile_expression host e c) _ eq in
        let start = push_loop (length c.code) (emit_with_operand op_jump_if_false 0 a) in
        let (b, p₁, last) = >>=-eq-ok (compile_block host body (enter_block start)) _ q in
        let left = leave_block b in
        let jumped = emit_with_operand op_jump (to_u32 (length c.code)) left in
        let same : pop_loop (length jumped.code)
              (patch_jump (length a.code) (length jumped.code) jumped)
            ≡ c' =
          cc in
        let test = compile_expression-Emits host law e c a p ready ke in
        let ready₁ = pushed-IsReady (length c.code) c a ready test in
        let part =
          scope-Placed start b ready₁
            (block-Placed body (enter_block start) b p₁ (enter_block-IsReady start ready₁) kb) in
        subst (Placed (CodeForStatement (Statement.while_statement e body)) c) same
          (while-Placed e body c a left ready test part)

    block-Placed :
        (b : Block) (c c' : Compiler)
        → compile_block host b c ≡ ok c'
        → IsReady c
        → IsCoveredBlock b
        → Placed (CodeForBlock b) c c'
    block-Placed Block.no_statements c c' eq ready k =
        let same : c ≡ c' = cc in
        subst (Placed (CodeForBlock Block.no_statements) c) same
          (empty-Placed c ready λ pool brk cont pc room. no_statements brk cont pc)
    block-Placed (Block.statement s rest) c c' eq ready (ks, kr) =
        let (d, p, q) = >>=-eq-ok (compile_statement host s c) (compile_block host rest) eq in
        let first = placed s c d p ready ks in
        Placed-seq c d c' first (block-Placed rest d c' q first.ready kr) (block_joined s rest)

    else-Placed :
        (b : Block) (c c' : Compiler)
        → compile_else host b c ≡ ok c'
        → IsReady c
        → IsCoveredBlock b
        → Placed (CodeForBlock b) c c'
    else-Placed Block.no_statements c c' eq ready k =
        let same : c ≡ c' = cc in
        subst (Placed (CodeForBlock Block.no_statements) c) same
          (empty-Placed c ready λ pool brk cont pc room. no_statements brk cont pc)
    else-Placed (Block.statement s rest) c c' eq ready (ks, kr) =
        let (d, p, rest_eq) = >>=-eq-ok (compile_statement host s (enter_block c)) _ eq in
        let (d', q, last) =
          >>=-eq-ok (compile_block host rest d) (λ x. ok (leave_block x)) rest_eq in
        let same : leave_block d' ≡ c' = cc in
        let first = placed s (enter_block c) d p (enter_block-IsReady c ready) ks in
        subst (Placed (CodeForBlock (Block.statement s rest)) c) same (
          scope-Placed c d' ready (
            Placed-seq (enter_block c) d d' first (block-Placed rest d d' q first.ready kr)
              (block_joined s rest)))

  pub compile_statement-Placed :
      (s : Statement) (c c' : Compiler)
      → compile_statement host s c ≡ ok c'
      → IsReady c
      → IsCovered s
      → Placed (CodeForStatement s) c c'
  compile_statement-Placed s c c' eq ready k = placed s c c' eq ready k

  pub compile_block-Placed :
      (b : Block) (c c' : Compiler)
      → compile_block host b c ≡ ok c'
      → IsReady c
      → IsCoveredBlock b
      → Placed (CodeForBlock b) c c'
  compile_block-Placed b c c' eq ready k = block-Placed b c c' eq ready k
