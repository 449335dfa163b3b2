-- ===== src/Compiler/Correct/StatementCode.antt =====
-- Which bytes are code for a statement at a place in the code, over a pool of constants, with the
-- targets of break and continue.
use glyphlang.Prelude.{ℕ, ◌+◌, ◌<◌, ◌^◌, ◌≡◌, List, [], ◌++◌, length}
use glyphlang.Prelude.Maps.{Str}
use glyphlang.Vm.Value.{Value, str}
use glyphlang.Vm.Opcode.{op_store_var, op_pop, op_return, op_jump, op_jump_if_false}
use glyphlang.Ast.{Expr, Statement, Block}
use glyphlang.Compiler.Correct.Code.{Holds, Code, plain, with_operand}

mutual
  pub data StatementCode (pool : List Value) : ℕ → ℕ → ℕ → Statement → List ℕ → Type 0 where
    assign_statement :
        (brk cont pc : ℕ) (name : Str) (i : ℕ) {e : Expr} {xs : List ℕ}
        → Code pool e xs
        → Holds pool i (str name)
        → StatementCode pool brk cont pc
            (Statement.assign_statement name e)
            (xs ++ with_operand op_store_var i)
    reassign_statement :
        (brk cont pc : ℕ) (name : Str) (i : ℕ) {e : Expr} {xs : List ℕ}
        → Code pool e xs
        → Holds pool i (str name)
        → StatementCode pool brk cont pc
            (Statement.reassign_statement name e)
            (xs ++ with_operand op_store_var i)
    return_statement :
        (brk cont pc : ℕ) {e : Expr} {xs : List ℕ}
        → Code pool e xs
        → StatementCode pool brk cont pc (Statement.return_statement e) (xs ++ plain op_return)
    expression_statement :
        (brk cont pc : ℕ) {e : Expr} {xs : List ℕ}
        → Code pool e xs
        → StatementCode pool brk cont pc (Statement.expression_statement e) (xs ++ plain op_pop)
    validation_statement :
        (brk cont pc : ℕ) → StatementCode pool brk cont pc Statement.validation_statement []
    break_statement :
        (brk cont pc : ℕ)
        → brk < 2 ^ 32
        → StatementCode pool brk cont pc Statement.break_statement (with_operand op_jump brk)
    continue_statement :
        (brk cont pc : ℕ)
        → cont < 2 ^ 32
        → StatementCode pool brk cont pc Statement.continue_statement (with_operand op_jump cont)
    if_statement :
        (brk cont pc else_at end_at : ℕ) {e : Expr} {t f : Block} {xs ys zs : List ℕ}
        → Code pool e xs
        → BlockCode pool brk cont (pc + length xs + 5) t ys
        → else_at ≡ pc + length xs + 5 + length ys + 5
        → BlockCode pool brk cont else_at f zs
        → end_at ≡ else_at + length zs
        → end_at < 2 ^ 32
        → StatementCode pool brk cont pc (Statement.if_statement e t f) (
            xs
            ++ (with_operand op_jump_if_false else_at
                ++ (ys ++ (with_operand op_jump end_at ++ zs))))
    while_statement :
        (brk cont pc end_at : ℕ) {e : Expr} {body : Block} {xs ys : List ℕ}
        → Code pool e xs
        → BlockCode pool end_at pc (pc + length xs + 5) body ys
        → end_at ≡ pc + length xs + 5 + length ys + 5
        → end_at < 2 ^ 32
        → StatementCode pool brk cont pc
            (Statement.while_statement e body)
            (xs ++ (with_operand op_jump_if_false end_at ++ (ys ++ with_operand op_jump pc)))

  pub data BlockCode (pool : List Value) : ℕ → ℕ → ℕ → Block → List ℕ → Type 0 where
    no_statements : (brk cont pc : ℕ) → BlockCode pool brk cont pc Block.no_statements []
    statement :
        (brk cont pc : ℕ) {s : Statement} {rest : Block} {xs ys : List ℕ}
        → StatementCode pool brk cont pc s xs
        → BlockCode pool brk cont (pc + length xs) rest ys
        → BlockCode pool brk cont pc (Block.statement s rest) (xs ++ ys)
