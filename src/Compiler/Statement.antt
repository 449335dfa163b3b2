-- ===== src/Compiler/Statement.antt =====
-- pkg/compiler/compiler.go: the statements that compile to straight code: assignment, reassignment,
-- return and expression statements.
use glyphlang.Prelude.{Bool, true, false, not, Option, some, none, Result, ok, ◌>>=◌, ◌>>◌, guard}
use glyphlang.Prelude.Maps.{Str}
use glyphlang.Vm.Value.{str, Host}
use glyphlang.Vm.Opcode.{op_store_var, op_return, op_pop}
use glyphlang.Ast.{Expr}
use glyphlang.Compiler.Symbols.{Symbol, resolve, resolve_local, define}
use glyphlang.Compiler.State.{
  Compiler, CompileError, redeclared_variable, undeclared_variable, add_constant, emit,
  emit_with_operand,
}
use glyphlang.Compiler.Expression.{to_u32, compile_expression}

-- existing, exists := …; exists && !existing.IsBuiltin
unfoldable pub is_redeclared : Option Symbol → Bool
is_redeclared (some s) = not s.is_builtin
is_redeclared none = false

unfoldable pub is_resolved : Option Symbol → Bool
is_resolved (some s) = true
is_resolved none = false

module _ (host : Host) where
  -- nameIdx := c.addConstant(…); c.emitWithOperand(vm.OpStoreVar, uint32(nameIdx))
  unfoldable pub compile_store : Str → Compiler → Compiler
  compile_store name c =
      let added = add_constant host (str name) c in
      emit_with_operand op_store_var (to_u32 added.0) added.1

  -- compileAssignStatement
  unfoldable pub compile_assign : Str → Expr → Compiler → Result CompileError Compiler
  compile_assign target value c = do
    guard (not (is_redeclared (resolve_local target c.symbol_table))) redeclared_variable
    c₁ ← compile_expression host value c
    let index = (add_constant host (str target) c₁).0
    let c₂ = compile_store target c₁
    ok (elim (is_resolved (resolve target c₂.symbol_table)) [
      | true ↦ c₂
      | false ↦ record c₂ { symbol_table = define target index c₂.symbol_table }
    ])

  -- compileReassignStatement
  unfoldable pub compile_reassign : Str → Expr → Compiler → Result CompileError Compiler
  compile_reassign target value c = do
    guard (is_resolved (resolve target c.symbol_table)) undeclared_variable
    c₁ ← compile_expression host value c
    ok (compile_store target c₁)

  -- compileReturnStatement
  unfoldable pub compile_return : Expr → Compiler → Result CompileError Compiler
  compile_return value c = do c₁ ← compile_expression host value c; ok (emit op_return c₁)

  -- compileExpressionStatement
  unfoldable pub compile_expression_statement : Expr → Compiler → Result CompileError Compiler
  compile_expression_statement e c = do c₁ ← compile_expression host e c; ok (emit op_pop c₁)
