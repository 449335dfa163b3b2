-- ===== src/Compiler/Correct/Nesting.antt =====
-- Blocks and their scopes, and the code of an if and of a while statement from that of its parts.
use glyphlang.Prelude.{
  ℕ, ◌+◌, ◌≤◌, ◌<◌, ◌^◌, ◌≡◌, refl, sym, ◌∙◌, ap, subst, List, [], ◌∷◌, ◌++◌, append_assoc, arith,
  length,
}
use glyphlang.Vm.Value.{Value}
use glyphlang.Vm.Machine.{max_stack_size}
use glyphlang.Vm.Opcode.{op_jump, op_jump_if_false}
use glyphlang.Exec.{room_for, room_for_block}
use glyphlang.Ast.{Expr, Statement, Block}
use glyphlang.Compiler.Symbols.{SymbolTable, parent, enter_scope, block_scope}
use glyphlang.Compiler.Symbols.Laws.{resolve-enter_scope}
use glyphlang.Compiler.State.{Compiler, LoopContext}
use glyphlang.Compiler.State.Pool.{get_elem?-Extends}
use glyphlang.Compiler.Expression.{to_u32}
use glyphlang.Compiler.Control.{enter_block, leave_block, patch_jump, patch_jumps, pop_loop}
use glyphlang.Compiler.Correct.Code.{with_operand}
use glyphlang.Compiler.Correct.Emission.{IsReady}
use glyphlang.Compiler.Correct.Joining.{CodeFor}
use glyphlang.Compiler.Correct.StatementCode.{
  StatementCode, BlockCode, if_statement, while_statement,
}
use glyphlang.Compiler.Correct.Pieces.{patch_all}
use glyphlang.Compiler.Correct.Placement.{Property, Placed}
use glyphlang.Compiler.Correct.Leaves.{CodeForStatement}

abbrev pub CodeForBlock : Block → Property
CodeForBlock b pool brk cont pc bs =
    room_for_block b ≤ max_stack_size → BlockCode pool brk cont pc b bs

pub enter_block-IsReady : (c : Compiler) → IsReady c → IsReady (enter_block c)
unfolding enter_block
enter_block-IsReady c ready = record {
  names = λ name s h.
      ready.names name s (sym (resolve-enter_scope block_scope name c.symbol_table) ∙ h);
  clean = ready.clean;
}

leave_block-eq :
    (c : Compiler) (table : SymbolTable)
    → c.symbol_table.parents ≡ table.current ∷ table.parents
    → leave_block c ≡ record c { symbol_table = table }
unfolding leave_block parent
leave_block-eq c table e = rw e refl

-- A block that is compiled in a scope of its own.
pub scope-Placed :
    {P : Property} (c d : Compiler)
    → IsReady c
    → Placed P (enter_block c) d
    → Placed P c (leave_block d)
unfolding enter_block enter_scope
scope-Placed {P} c d ready e =
    subst (Placed P c) (sym (leave_block-eq d c.symbol_table e.outer)) (record {
      bytes = e.bytes;
      jumps = e.jumps;
      pieces = e.pieces;
      loops = e.loops;
      outer = refl;
      ready = record {
        names = λ name s h.
            get_elem?-Extends c.constants d.constants s.index e.grows (ready.names name s h);
        clean = e.ready.clean;
      };
      grows = e.grows;
      implements = e.implements;
    })

patch_jumps-all :
    (js : List ℕ) (t : ℕ) (c : Compiler)
    → patch_jumps js t c ≡ record c { code = patch_all js t c.code }
unfolding patch_jumps patch_jump
patch_jumps-all [] t c = refl
patch_jumps-all (j ∷ js) t c = patch_jumps-all js t (patch_jump j t c)

-- The end of a loop.
pub pop_loop-eq :
    (t : ℕ) (c : Compiler) (loop : LoopContext) (outer : List LoopContext)
    → c.loop_stack ≡ loop ∷ outer
    → pop_loop t c ≡ record c { code = patch_all loop.break_jumps t c.code; loop_stack = outer }
unfolding pop_loop
pop_loop-eq t c loop outer e =
    rw e (patch_jumps-all loop.break_jumps t (record c { loop_stack = outer }))

pub if_code :
    (pool : List Value) (brk cont pc else_at end_at : ℕ) (e : Expr) (t f : Block)
    (xs ys zs : List ℕ)
    → CodeFor e pool xs
    → CodeForBlock t pool brk cont (pc + length xs + 5) ys
    → else_at ≡ pc + length xs + 5 + length ys + 5
    → CodeForBlock f pool brk cont else_at zs
    → end_at ≡ else_at + length zs
    → end_at < 2 ^ 32
    → CodeForStatement (Statement.if_statement e t f) pool brk cont pc (
        (xs ++ (with_operand op_jump_if_false (to_u32 else_at) ++ ys))
        ++ (with_operand op_jump (to_u32 end_at) ++ zs))
unfolding room_for
if_code pool brk cont pc else_at end_at e t f xs ys zs code then_code p else_code q small room =
    let u : else_at ≡ to_u32 else_at = omega arith in
    let w : end_at ≡ to_u32 end_at = omega arith in
    let flat =
      if_statement brk cont pc else_at end_at (code (omega arith)) (then_code (omega arith)) p
        (else_code (omega arith)) q small in
    let shape : (a b : ℕ) → _ = λ (a b : ℕ).
      append_assoc xs (with_operand op_jump_if_false a ++ ys) (with_operand op_jump b ++ zs)
      ∙ ap (λ (l : List ℕ). xs ++ l)
          (append_assoc (with_operand op_jump_if_false a) ys (with_operand op_jump b ++ zs)) in
    subst (StatementCode pool brk cont pc (Statement.if_statement e t f))
      (sym (shape else_at end_at)
        ∙ ap
            (λ (a : ℕ).
              (xs ++ (with_operand op_jump_if_false a ++ ys))
              ++ (with_operand op_jump end_at ++ zs))
            u
        ∙ ap
            (λ (b : ℕ).
              (xs ++ (with_operand op_jump_if_false (to_u32 else_at) ++ ys))
              ++ (with_operand op_jump b ++ zs))
            w)
      flat

pub while_code :
    (pool : List Value) (brk cont pc end_at : ℕ) (e : Expr) (body : Block) (xs ys : List ℕ)
    → CodeFor e pool xs
    → CodeForBlock body pool end_at pc (pc + length xs + 5) ys
    → end_at ≡ pc + length xs + 5 + length ys + 5
    → end_at < 2 ^ 32
    → CodeForStatement (Statement.while_statement e body) pool brk cont pc (
        xs
        ++ (with_operand op_jump_if_false (to_u32 end_at)
            ++ (ys ++ with_operand op_jump (to_u32 pc))))
unfolding room_for
while_code pool brk cont pc end_at e body xs ys code body_code p small room =
    let u : end_at ≡ to_u32 end_at = omega arith in
    let w : pc ≡ to_u32 pc = omega arith in
    subst (StatementCode pool brk cont pc (Statement.while_statement e body))
      (ap (λ (a : ℕ). xs ++ (with_operand op_jump_if_false a ++ (ys ++ with_operand op_jump pc))) u
        ∙ ap
            (λ (b : ℕ).
              xs
              ++ (with_operand op_jump_if_false (to_u32 end_at) ++ (ys ++ with_operand op_jump b)))
            w)
      (while_statement brk cont pc end_at (code (omega arith)) (body_code (omega arith)) p small)
