-- ===== src/Compiler/Control.antt =====
-- pkg/compiler/compiler.go: compileStatement with the statements that jump: if, while, for, switch,
-- break and continue, and the loop stack. A jump is emitted with the target 0 and patched later.
use glyphlang.Prelude.{
  ℕ, zero, suc, ◌+◌, ◌/◌, ◌%◌, true, false, List, [], ◌∷◌, ◌++◌, Option, some, none, Result, ok,
  err, ◌>>=◌, ltb, length, take, drop,
}
use glyphlang.Prelude.Maps.{Str, bytes_of}
use glyphlang.Bytes.{put_u32}
use glyphlang.Vm.Value.{str, Host}
use glyphlang.Vm.Opcode.{
  op_load_var, op_store_var, op_jump, op_jump_if_false, op_eq, op_get_iter, op_iter_next,
  op_iter_has_next,
}
use glyphlang.Ast.{
  Statement, assign_statement, reassign_statement, return_statement, if_statement, while_statement,
  for_statement, switch_statement, expression_statement, validation_statement, break_statement,
  continue_statement, Block, no_statements, statement, Cases, no_cases, switch_case,
}
use glyphlang.Compiler.Symbols.{block_scope, enter_scope, parent, define}
use glyphlang.Compiler.State.{
  Compiler, CompileError, break_outside_loop, continue_outside_loop, add_constant, emit,
  emit_with_operand,
}
use glyphlang.Compiler.Expression.{to_u32, compile_expression}
use glyphlang.Compiler.Statement.{
  compile_assign, compile_reassign, compile_return, compile_expression_statement,
}

-- The bytes of the code with the operand of the jump at `offset` replaced.
unfoldable pub patch_code : ℕ → ℕ → List ℕ → List ℕ
patch_code offset target code =
    take (suc offset) code ++ (put_u32 (to_u32 target) ++ drop (offset + 5) code)

-- patchJump
unfoldable pub patch_jump : ℕ → ℕ → Compiler → Compiler
patch_jump offset target c = record c { code = patch_code offset target c.code }

unfoldable pub patch_jumps : List ℕ → ℕ → Compiler → Compiler
patch_jumps [] target c = c
patch_jumps (offset ∷ offsets) target c = patch_jumps offsets target (patch_jump offset target c)

-- c.symbolTable = c.symbolTable.EnterScope(BlockScope)
unfoldable pub enter_block : Compiler → Compiler
enter_block c = record c { symbol_table = enter_scope block_scope c.symbol_table }

-- c.symbolTable = c.symbolTable.Parent(). Every block that is left was entered, so that there is a
-- parent.
unfoldable pub leave_block : Compiler → Compiler
leave_block c = elim (parent c.symbol_table) [
  | some table ↦ record c { symbol_table = table }
  | none ↦ c
]

-- pushLoop
unfoldable pub push_loop : ℕ → Compiler → Compiler
push_loop target c = record c {
  loop_stack = record { continue_target = target; break_jumps = [] } ∷ c.loop_stack;
}

-- popLoop
unfoldable pub pop_loop : ℕ → Compiler → Compiler
pop_loop end_offset c = elim c.loop_stack [
  | [] ↦ c
  | loop ∷ outer ↦ patch_jumps loop.break_jumps end_offset (record c { loop_stack = outer })
]

-- compileBreakStatement
unfoldable pub compile_break : Compiler → Result CompileError Compiler
compile_break c = elim c.loop_stack [
  | [] ↦ err break_outside_loop
  | loop ∷ outer ↦
      let c₁ = emit_with_operand op_jump 0 c in
      ok (record c₁ {
        loop_stack = record loop { break_jumps = loop.break_jumps ++ length c.code ∷ [] } ∷ outer;
      })
]

-- compileContinueStatement
unfoldable pub compile_continue : Compiler → Result CompileError Compiler
compile_continue c = elim c.loop_stack [
  | [] ↦ err continue_outside_loop
  | loop ∷ outer ↦ ok (emit_with_operand op_jump (to_u32 loop.continue_target) c)
]

-- fmt.Sprintf("%d", n)
unfoldable pub decimal_from : ℕ → ℕ → Str → Str
decimal_from zero n rest = rest
decimal_from (suc fuel) n rest = elim (ltb n 10) [
  | true ↦ (48 + n) ∷ rest
  | false ↦ decimal_from fuel (n / 10) ((48 + n % 10) ∷ rest)
]

unfoldable pub decimal : ℕ → Str
unfolding decimal_from
decimal n = decimal_from (suc n) n []

module _ (host : Host) where
  -- nameIdx := c.addConstant(name); c.symbolTable.Define(name, nameIdx)
  unfoldable pub declare : Str → Compiler → ℕ × Compiler
  declare name c =
      let added = add_constant host (str name) c in
      (added.0, record added.1 { symbol_table = define name added.0 added.1.symbol_table })

  -- A fresh name with the label counter in it.
  unfoldable pub declare_label : Str → Compiler → ℕ × Compiler
  unfolding declare
  declare_label prefix c =
      declare (prefix ++ decimal c.label_counter) (record c { label_counter = suc c.label_counter })

  -- The part of compileForStatement that defines the key, if there is one.
  unfoldable pub declare_key : Option Str → Compiler → Option ℕ × Compiler
  unfolding declare
  declare_key none c = (none, c)
  declare_key (some key) c = let declared = declare key c in (some declared.0, declared.1)

  -- OpIterNext, and the stores of the value and of the key
  unfoldable pub store_next : Option ℕ → ℕ → Compiler → Compiler
  store_next none value_index c =
      emit_with_operand op_store_var (to_u32 value_index) (emit_with_operand op_iter_next 0 c)
  store_next (some key_index) value_index c =
      emit_with_operand op_store_var (to_u32 key_index)
        (emit_with_operand op_store_var (to_u32 value_index) (emit_with_operand op_iter_next 1 c))

  unfoldable mutual
    -- compileStatement, with the method of each statement in its clause
    pub compile_statement : Statement → Compiler → Result CompileError Compiler
    compile_statement (assign_statement target value) c = compile_assign host target value c
    compile_statement (reassign_statement target value) c = compile_reassign host target value c
    compile_statement (return_statement value) c = compile_return host value c
    compile_statement (expression_statement e) c = compile_expression_statement host e c
    compile_statement validation_statement c = ok c
    compile_statement break_statement c = compile_break c
    compile_statement continue_statement c = compile_continue c
    compile_statement (if_statement condition then_block else_block) c = do
      c₁ ← compile_expression host condition c
      c₂ ← compile_block then_block (enter_block (emit_with_operand op_jump_if_false 0 c₁))
      let c₃ = leave_block c₂
      let c₄ = emit_with_operand op_jump 0 c₃
      c₅ ← compile_else else_block (patch_jump (length c₁.code) (length c₄.code) c₄)
      ok (patch_jump (length c₃.code) (length c₅.code) c₅)
    compile_statement (while_statement condition body) c = do
      c₁ ← compile_expression host condition c
      let c₂ = push_loop (length c.code) (emit_with_operand op_jump_if_false 0 c₁)
      c₃ ← compile_block body (enter_block c₂)
      let c₄ = emit_with_operand op_jump (to_u32 (length c.code)) (leave_block c₃)
      ok (pop_loop (length c₄.code) (patch_jump (length c₁.code) (length c₄.code) c₄))
    compile_statement (for_statement key value iterable body) c = do
      c₁ ← compile_expression host iterable (enter_block c)
      let iter = declare_label (bytes_of "__iter_") (emit op_get_iter c₁)
      let c₂ = emit_with_operand op_store_var (to_u32 iter.0) iter.1
      let declared = declare value c₂
      let keyed = declare_key key declared.1
      let c₃ = keyed.1
      let c₄ = emit op_iter_has_next (emit_with_operand op_load_var (to_u32 iter.0) c₃)
      let c₅ =
          emit_with_operand op_load_var (to_u32 iter.0) (emit_with_operand op_jump_if_false 0 c₄)
      c₆ ← compile_block body (push_loop (length c₃.code) (store_next keyed.0 declared.0 c₅))
      let c₇ = emit_with_operand op_jump (to_u32 (length c₃.code)) c₆
      let c₈ = pop_loop (length c₇.code) (patch_jump (length c₄.code) (length c₇.code) c₇)
      ok (record c₈ { symbol_table = c.symbol_table })
    compile_statement (switch_statement value cases default_block) c = do
      let switched = declare_label (bytes_of "__switch_") c
      c₁ ← compile_expression host value switched.1
      let c₂ = emit_with_operand op_store_var (to_u32 switched.0) c₁
      (jumps, c₃) ← compile_cases switched.0 cases c₂
      c₄ ← compile_else default_block c₃
      ok (patch_jumps jumps (length c₄.code) c₄)

    -- The loops over the statements of a block.
    pub compile_block : Block → Compiler → Result CompileError Compiler
    compile_block no_statements c = ok c
    compile_block (statement s rest) c = do c₁ ← compile_statement s c; compile_block rest c₁

    -- An else block or a default case: an empty one is left out.
    pub compile_else : Block → Compiler → Result CompileError Compiler
    compile_else no_statements c = ok c
    compile_else (statement s rest) c = do
      c₁ ← compile_statement s (enter_block c)
      c₂ ← compile_block rest c₁
      ok (leave_block c₂)

    -- The loop over the cases, with the places of the jumps to the end.
    pub compile_cases : ℕ → Cases → Compiler → Result CompileError (List ℕ × Compiler)
    compile_cases index no_cases c = ok ([], c)
    compile_cases index (switch_case value body rest) c = do
      c₁ ← compile_expression host value (emit_with_operand op_load_var (to_u32 index) c)
      let c₂ = emit op_eq c₁
      c₃ ← compile_block body (enter_block (emit_with_operand op_jump_if_false 0 c₂))
      let c₄ = leave_block c₃
      let c₅ = emit_with_operand op_jump 0 c₄
      (jumps, c₆) ← compile_cases index rest (patch_jump (length c₂.code) (length c₅.code) c₅)
      ok (length c₄.code ∷ jumps, c₆)
