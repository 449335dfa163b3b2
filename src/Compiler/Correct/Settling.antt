-- ===== src/Compiler/Correct/Settling.antt =====
-- Statements that compile outside of a loop do not end by a break or a continue.
use glyphlang.Prelude.{
  ℕ, zero, suc, ◌≡◌, ◌∙◌, ap, Bool, true, false, List, [], some, none, ok, err, >>=-eq-ok, length,
}
use glyphlang.Vm.Value.{Host, Heap, Fields, Fallible}
use glyphlang.Vm.Opcode.{op_jump, op_jump_if_false}
use glyphlang.Exec.{
  Env, normal, returned, broken, continued, Execution, and_then, after_body, from, loop, value_of,
  test_of, exec, exec_block,
}
use glyphlang.Ast.{Statement, Block}
use glyphlang.Compiler.State.{Compiler, emit_with_operand}
use glyphlang.Compiler.State.Pool.{FloatEqLaw}
use glyphlang.Compiler.Expression.{compile_expression}
use glyphlang.Compiler.Control.{
  compile_statement, compile_block, compile_else, compile_break, compile_continue, enter_block,
  leave_block, patch_jump,
}
use glyphlang.Compiler.Correct.Emission.{IsReady}
use glyphlang.Compiler.Correct.Whole.{compile_expression-Emits}
use glyphlang.Compiler.Correct.Placement.{with_breaks}
use glyphlang.Compiler.Correct.Nesting.{enter_block-IsReady, scope-Placed}
use glyphlang.Compiler.Correct.Statements.{
  IsCovered, IsCoveredBlock, IsReady-after, patched-IsReady, compile_statement-Placed,
  compile_block-Placed,
}

-- Not the end by a break or a continue.
abbrev pub Settled : Execution → Type 0
Settled none = Unit {0}
Settled (some (err e)) = Unit {0}
Settled (some (ok (normal env))) = Unit {0}
Settled (some (ok (returned v env))) = Unit {0}
Settled (some (ok (broken env))) = ⊥
Settled (some (ok (continued env))) = ⊥

from-Settled :
    {A : Type 0} (m : Fallible A) (k : A → Execution)
    → ((a : A) → Settled (k a))
    → Settled (from m k)
unfolding from
from-Settled (ok a) k h = h a
from-Settled (err e) k h = tt

and_then-Settled :
    (m : Execution) (k : Env → Execution)
    → Settled m
    → ((env : Env) → Settled (k env))
    → Settled (and_then m k)
unfolding and_then
and_then-Settled none k h g = tt
and_then-Settled (some (err e)) k h g = tt
and_then-Settled (some (ok (normal env))) k h g = g env
and_then-Settled (some (ok (returned v env))) k h g = tt
and_then-Settled (some (ok (broken env))) k h g = h
and_then-Settled (some (ok (continued env))) k h g = h

-- A loop takes the breaks and continues of its body.
after_body-Settled :
    (m : Execution) (k : Env → Execution)
    → ((env : Env) → Settled (k env))
    → Settled (after_body m k)
unfolding after_body
after_body-Settled none k g = tt
after_body-Settled (some (err e)) k g = tt
after_body-Settled (some (ok (normal env))) k g = g env
after_body-Settled (some (ok (returned v env))) k g = tt
after_body-Settled (some (ok (broken env))) k g = tt
after_body-Settled (some (ok (continued env))) k g = g env

branch-Settled :
    (b : Bool) (taken other : Execution)
    → Settled taken
    → Settled other
    → Settled (elim b [ true ↦ taken | false ↦ other ])
branch-Settled true taken other h g = h
branch-Settled false taken other h g = g

loop-Settled :
    (fuel : ℕ) (test : Env → Fallible (Bool × Heap)) (body : Env → Execution) (env : Env)
    → Settled (loop fuel test body env)
unfolding loop
loop-Settled zero test body env = tt
loop-Settled (suc fuel) test body env = from-Settled (test env) _ λ r.
    let env₁ : Env = record env { heap = r.1 } in
    branch-Settled r.0 (after_body (body env₁) (loop fuel test body)) (some (ok (normal env₁)))
      (after_body-Settled (body env₁) (loop fuel test body) (loop-Settled fuel test body)) tt

-- Outside of a loop there is none after more breaks.
still_outside :
    (js : List ℕ) (c d : Compiler)
    → d.loop_stack ≡ with_breaks js c.loop_stack
    → c.loop_stack ≡ []
    → d.loop_stack ≡ []
still_outside js c d e outside = e ∙ ap (with_breaks js) outside

entered_outside : (c : Compiler) → c.loop_stack ≡ [] → (enter_block c).loop_stack ≡ []
unfolding enter_block
entered_outside c outside = outside

emitted_outside :
    (c : Compiler) → c.loop_stack ≡ [] → (emit_with_operand op_jump_if_false 0 c).loop_stack ≡ []
unfolding emit_with_operand
emitted_outside c outside = outside

patched_outside :
    (i t : ℕ) (c : Compiler)
    → c.loop_stack ≡ []
    → (patch_jump i t (emit_with_operand op_jump 0 c)).loop_stack ≡ []
unfolding patch_jump emit_with_operand
patched_outside i t c outside = outside

break_rejected : (c c' : Compiler) → c.loop_stack ≡ [] → compile_break c ≡ ok c' → ⊥
unfolding compile_break
break_rejected c c' outside eq = let e = rw outside at eq in cc

continue_rejected : (c c' : Compiler) → c.loop_stack ≡ [] → compile_continue c ≡ ok c' → ⊥
unfolding compile_continue
continue_rejected c c' outside eq = let e = rw outside at eq in cc

module _ (host : Host) (law : FloatEqLaw host) (globals : Fields) (fuel : ℕ) where
  mutual
    unfolding compile_statement compile_block compile_else exec exec_block IsCovered IsCoveredBlock

    settled :
        (s : Statement) (c c' : Compiler) (env : Env)
        → compile_statement host s c ≡ ok c'
        → IsReady c
        → IsCovered s
        → c.loop_stack ≡ []
        → Settled (exec host globals fuel s env)
    settled (Statement.assign_statement name e) c c' env eq ready k outside =
        from-Settled (value_of host globals e env) _ λ r. tt
    settled (Statement.reassign_statement name e) c c' env eq ready k outside =
        from-Settled (value_of host globals e env) _ λ r. tt
    settled (Statement.return_statement e) c c' env eq ready k outside =
        from-Settled (value_of host globals e env) _ λ r. tt
    settled (Statement.expression_statement e) c c' env eq ready k outside =
        from-Settled (value_of host globals e env) _ λ r. tt
    settled Statement.validation_statement c c' env eq ready k outside = tt
    settled Statement.break_statement c c' env eq ready k outside = break_rejected c c' outside eq
    settled Statement.continue_statement c c' env eq ready k outside =
        continue_rejected c c' outside eq
    settled (Statement.for_statement key name iterable body) c c' env eq ready k outside = tt
    settled (Statement.switch_statement value cases default_block) c c' env eq ready k outside = tt
    settled (Statement.while_statement e body) c c' env eq ready k outside =
        loop-Settled fuel (test_of host globals e) (exec_block host globals fuel body) env
    settled (Statement.if_statement e t f) c c' env eq ready (ke, kt, kf) outside =
        let (a, p, q) = >>=-eq-ok (compile_expression host e c) _ eq in
        let start = emit_with_operand op_jump_if_false 0 a in
        let (b, p₁, q₁) = >>=-eq-ok (compile_block host t (enter_block start)) _ q in
        let left = leave_block b in
        let jumped = emit_with_operand op_jump 0 left in
        let patched = patch_jump (length a.code) (length jumped.code) jumped in
        let (d, p₂, _) =
          >>=-eq-ok (compile_else host f patched)
            (λ x. ok (patch_jump (length left.code) (length x.code) x)) q₁ in
        let test = compile_expression-Emits host law e c a p ready ke in
        let ready₁ = IsReady-after host law c a 0 ready test in
        let ready_t = enter_block-IsReady start ready₁ in
        let then_part =
          scope-Placed start b ready₁
            (compile_block-Placed host law t (enter_block start) b p₁ ready_t kt) in
        let outside₁ = emitted_outside a (test.loops ∙ outside) in
        let outside₂ = still_outside then_part.jumps start left then_part.loops outside₁ in
        from-Settled (test_of host globals e env) _ λ r.
          let env₁ : Env = record env { heap = r.1 } in
          branch-Settled r.0 _ _
            (block-Settled t (enter_block start) b env₁ p₁ ready_t kt
              (entered_outside start outside₁))
            (else-Settled f patched d env₁ p₂
              (patched-IsReady host law (length a.code) (length jumped.code) left then_part.ready)
              kf (patched_outside (length a.code) (length jumped.code) left outside₂))

    block-Settled :
        (b : Block) (c c' : Compiler) (env : Env)
        → compile_block host b c ≡ ok c'
        → IsReady c
        → IsCoveredBlock b
        → c.loop_stack ≡ []
        → Settled (exec_block host globals fuel b env)
    block-Settled Block.no_statements c c' env eq ready k outside = tt
    block-Settled (Block.statement s rest) c c' env eq ready (ks, kr) outside =
        let (d, p, q) = >>=-eq-ok (compile_statement host s c) (compile_block host rest) eq in
        let first = compile_statement-Placed host law s c d p ready ks in
        and_then-Settled (exec host globals fuel s env) (exec_block host globals fuel rest)
          (settled s c d env p ready ks outside)
          λ env₁.
            block-Settled rest d c' env₁ q first.ready kr
              (still_outside first.jumps c d first.loops outside)

    else-Settled :
        (b : Block) (c c' : Compiler) (env : Env)
        → compile_else host b c ≡ ok c'
        → IsReady c
        → IsCoveredBlock b
        → c.loop_stack ≡ []
        → Settled (exec_block host globals fuel b env)
    else-Settled Block.no_statements c c' env eq ready k outside = tt
    else-Settled (Block.statement s rest) c c' env eq ready (ks, kr) outside =
        let (d, p, rest_eq) = >>=-eq-ok (compile_statement host s (enter_block c)) _ eq in
        let (d', q, _) = >>=-eq-ok (compile_block host rest d) (λ x. ok (leave_block x)) rest_eq in
        let ready₁ = enter_block-IsReady c ready in
        let outside₁ = entered_outside c outside in
        let first = compile_statement-Placed host law s (enter_block c) d p ready₁ ks in
        and_then-Settled (exec host globals fuel s env) (exec_block host globals fuel rest)
          (settled s (enter_block c) d env p ready₁ ks outside₁)
          λ env₁.
            block-Settled rest d d' env₁ q first.ready kr
              (still_outside first.jumps (enter_block c) d first.loops outside₁)

  pub exec_block-Settled :
      (b : Block) (c c' : Compiler) (env : Env)
      → compile_block host b c ≡ ok c'
      → IsReady c
      → IsCoveredBlock b
      → c.loop_stack ≡ []
      → Settled (exec_block host globals fuel b env)
  exec_block-Settled b c c' env eq ready k outside = block-Settled b c c' env eq ready k outside
