-- ===== src/Compiler/Correct/StatementBodies.antt =====
-- If and while statements: their code does what they mean if the code of their blocks does.
use glyphlang.Prelude.{
  ℕ, ◌+◌, ◌≤◌, ◌<◌, ◌^◌, ◌≡◌, sym, subst, false, List, ◌++◌, arith, length, length-append,
}
use glyphlang.Vm.Value.{Value, Host}
use glyphlang.Vm.Machine.{Vm, max_stack_size}
use glyphlang.Vm.Opcode.{op_jump, op_jump_if_false}
use glyphlang.Vm.Runs.{Stands, Stands-append}
use glyphlang.Exec.{Env, test_of, exec, exec_block, room_for, room_for_block}
use glyphlang.Ast.{Expr, Statement, Block}
use glyphlang.Compiler.Correct.Code.{Code, with_operand}
use glyphlang.Compiler.Correct.Parts.{length-with_operand}
use glyphlang.Compiler.Correct.Patches.{while_size}
use glyphlang.Compiler.Correct.Jumps.{place, Runs-jump}
use glyphlang.Compiler.Correct.Arrivals.{Arrives, and_run, branch-Arrives, from-Arrives}
use glyphlang.Compiler.Correct.StatementParts.{
  exits, run_test, loop-Arrives, Stands-operand, shifted,
}

pub if_length :
    (end_at else_at pc : ℕ) (xs ys zs : List ℕ)
    → else_at ≡ pc + length xs + 5 + length ys + 5
    → end_at ≡ else_at + length zs
    → end_at
      ≡ pc
        + length (
            xs
            ++ (with_operand op_jump_if_false else_at
                ++ (ys ++ (with_operand op_jump end_at ++ zs))))
if_length end_at else_at pc xs ys zs p q =
    let rest = ys ++ (with_operand op_jump end_at ++ zs) in
    omega (
      arith,
      length-append {0} xs (with_operand op_jump_if_false else_at ++ rest),
      length-append {0} (with_operand op_jump_if_false else_at) rest,
      length-append {0} ys (with_operand op_jump end_at ++ zs),
      length-append {0} (with_operand op_jump end_at) zs,
      length-with_operand op_jump_if_false else_at,
      length-with_operand op_jump end_at,
    )

pub while_length :
    (end_at pc : ℕ) (xs ys : List ℕ)
    → end_at ≡ pc + length xs + 5 + length ys + 5
    → end_at
      ≡ pc
        + length (xs ++ (with_operand op_jump_if_false end_at ++ (ys ++ with_operand op_jump pc)))
while_length end_at pc xs ys p = omega (arith, p, while_size xs ys end_at pc)

module _ (host : Host) (vm : Vm) (live : vm.halted ≡ false) (s : List Value) (fuel : ℕ) where
  -- The machine does what the reference does, from the code of a statement, and of a block.
  abbrev pub Does : ℕ → ℕ → ℕ → Statement → List ℕ → Type 0
  Does brk cont pc st bs =
      (env : Env)
      → Stands vm.code pc bs
      → length s + room_for st ≤ max_stack_size
      → Arrives host vm s (exits (pc + length bs) brk cont) (place vm env pc s)
          (exec host vm.globals fuel st env)

  abbrev pub DoesBlock : ℕ → ℕ → ℕ → Block → List ℕ → Type 0
  DoesBlock brk cont pc b bs =
      (env : Env)
      → Stands vm.code pc bs
      → length s + room_for_block b ≤ max_stack_size
      → Arrives host vm s (exits (pc + length bs) brk cont) (place vm env pc s)
          (exec_block host vm.globals fuel b env)

  pub if-Does :
      (brk cont pc else_at end_at : ℕ) (e : Expr) (t f : Block) (xs ys zs : List ℕ)
      → Code vm.constants e xs
      → DoesBlock brk cont (pc + length xs + 5) t ys
      → else_at ≡ pc + length xs + 5 + length ys + 5
      → DoesBlock brk cont else_at f zs
      → end_at ≡ else_at + length zs
      → end_at < 2 ^ 32
      → Does brk cont pc (Statement.if_statement e t f) (
          xs
          ++ (with_operand op_jump_if_false else_at ++ (ys ++ (with_operand op_jump end_at ++ zs))))
  unfolding exec exec_block room_for
  if-Does brk cont pc else_at end_at e t f xs ys zs code then_does p else_does q small env stands
        room =
      let (of_test, rest) = Stands-append vm.code pc xs _ stands in
      let (of_branch, rest₁) =
        Stands-operand host vm live s op_jump_if_false else_at (pc + length xs) _ rest in
      let (of_then, rest₂) = Stands-append vm.code (pc + length xs + 5) ys _ rest₁ in
      let (of_jump, rest₃) =
        Stands-operand host vm live s op_jump end_at (pc + length xs + 5 + length ys) zs rest₂ in
      let of_else : Stands vm.code else_at zs = subst (λ k. Stands vm.code k zs) (sym p) rest₃ in
      let into_then = λ (env₁ : Env).
        and_run host vm s (exits (pc + length xs + 5 + length ys) brk cont) end_at _ _
          (λ env₂.
            Runs-jump host vm live env₂ end_at (pc + length xs + 5 + length ys) s small of_jump)
          (then_does env₁ of_then (omega arith)) in
      let into_else = λ (env₁ : Env).
        shifted host vm live s brk cont _ (exec_block host vm.globals fuel f env₁) (sym q)
          (else_does env₁ of_else (omega arith)) in
      shifted host vm live s brk cont _
        (exec host vm.globals fuel (Statement.if_statement e t f) env)
        (if_length end_at else_at pc xs ys zs p q)
        (from-Arrives host vm s (exits end_at brk cont) _ (test_of host vm.globals e env) _ _
          (run_test host vm live s e xs pc else_at env code of_test of_branch (omega arith)
            (omega arith))
          λ r.
            branch-Arrives host vm s (exits end_at brk cont) (pc + length xs + 5) else_at _ _
              (record env { heap = r.1 }) (into_then (record env { heap = r.1 }))
              (into_else (record env { heap = r.1 })) r.0)

  pub while-Does :
      (brk cont pc end_at : ℕ) (e : Expr) (body : Block) (xs ys : List ℕ)
      → Code vm.constants e xs
      → DoesBlock end_at pc (pc + length xs + 5) body ys
      → end_at ≡ pc + length xs + 5 + length ys + 5
      → end_at < 2 ^ 32
      → Does brk cont pc
          (Statement.while_statement e body)
          (xs ++ (with_operand op_jump_if_false end_at ++ (ys ++ with_operand op_jump pc)))
  unfolding exec exec_block room_for
  while-Does brk cont pc end_at e body xs ys code body_does p small env stands room =
      let (of_test, rest) = Stands-append vm.code pc xs _ stands in
      let (of_branch, rest₁) =
        Stands-operand host vm live s op_jump_if_false end_at (pc + length xs) _ rest in
      let (of_body, of_jump) = Stands-append vm.code (pc + length xs + 5) ys _ rest₁ in
      let back = λ (env₁ : Env).
        Runs-jump host vm live env₁ pc (pc + length xs + 5 + length ys) s (omega arith) of_jump in
      shifted host vm live s brk cont _
        (exec host vm.globals fuel (Statement.while_statement e body) env)
        (while_length end_at pc xs ys p)
        (loop-Arrives host vm live s (test_of host vm.globals e)
          (exec_block host vm.globals fuel body) pc (pc + length xs + 5)
          (pc + length xs + 5 + length ys) end_at brk cont
          (λ env₁.
            run_test host vm live s e xs pc end_at env₁ code of_test of_branch small (omega arith))
          (λ env₁. body_does env₁ of_body (omega arith)) back fuel env)
