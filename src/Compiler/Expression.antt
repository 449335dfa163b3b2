-- ===== src/Compiler/Expression.antt =====
-- pkg/compiler/compiler.go: compileExpression and the methods that it calls.
use glyphlang.Prelude.{ℕ, ◌^◌, ◌%◌, Result, ok, ◌>>=◌, or_fail}
use glyphlang.Prelude.Maps.{Str}
use glyphlang.Vm.Value.{Value, null, int, float, bool, str, Host}
use glyphlang.Vm.Opcode.{
  Opcode, op_push, op_add, op_sub, op_mul, op_div, op_mod, op_eq, op_ne, op_lt, op_gt, op_ge, op_le,
  op_and, op_or, op_not, op_neg, op_load_var, op_get_index, op_build_object, op_get_field,
  op_build_array, op_await, op_try,
}
use glyphlang.Ast.{
  Literal, int_literal, string_literal, bool_literal, float_literal, null_literal, BinOp, add, sub,
  mul, div, eq, ne, lt, le, gt, ge, and, or, mod_op, UnOp, not_op, neg_op, Expr, literal, variable,
  binary, unary, object, array, field_access, array_index, await, try, ObjectFields, no_fields,
  field, Elements, no_elements, element, count_fields, count_elements,
}
use glyphlang.Compiler.Symbols.{resolve}
use glyphlang.Compiler.State.{
  Compiler, CompileError, undefined_variable, add_constant, emit, emit_with_operand,
}

-- The constant of a literal, in compileLiteral.
unfoldable pub literal_value : Literal → Value
literal_value (int_literal n) = int n
literal_value (string_literal s) = str s
literal_value (bool_literal b) = bool b
literal_value (float_literal f) = float f
literal_value null_literal = null

-- The switch of compileBinaryOp.
unfoldable pub binary_opcode : BinOp → Opcode
binary_opcode add = op_add
binary_opcode sub = op_sub
binary_opcode mul = op_mul
binary_opcode div = op_div
binary_opcode mod_op = op_mod
binary_opcode eq = op_eq
binary_opcode ne = op_ne
binary_opcode lt = op_lt
binary_opcode le = op_le
binary_opcode gt = op_gt
binary_opcode ge = op_ge
binary_opcode and = op_and
binary_opcode or = op_or

-- The switch of compileUnaryOp.
unfoldable pub unary_opcode : UnOp → Opcode
unary_opcode not_op = op_not
unary_opcode neg_op = op_neg

-- uint32(n)
abbrev pub to_u32 : ℕ → ℕ
to_u32 n = n % 2 ^ 32

-- compileVariable
unfoldable pub compile_variable : Str → Compiler → Result CompileError Compiler
compile_variable name c = do
  symbol ← or_fail (resolve name c.symbol_table) undefined_variable
  ok (emit_with_operand op_load_var (to_u32 symbol.index) c)

module _ (host : Host) where
  -- idx := c.addConstant(val); c.emitWithOperand(vm.OpPush, uint32(idx))
  unfoldable pub compile_constant : Value → Compiler → Compiler
  compile_constant val c =
      let added = add_constant host val c in emit_with_operand op_push (to_u32 added.0) added.1

  unfoldable mutual
    -- compileExpression, with the method of each kind of expression in its clause
    pub compile_expression : Expr → Compiler → Result CompileError Compiler
    compile_expression (literal l) c = ok (compile_constant (literal_value l) c)
    compile_expression (variable name) c = compile_variable name c
    compile_expression (binary op l r) c = do
      c₁ ← compile_expression l c
      c₂ ← compile_expression r c₁
      ok (emit (binary_opcode op) c₂)
    compile_expression (unary op e) c = do
      c₁ ← compile_expression e c
      ok (emit (unary_opcode op) c₁)
    compile_expression (object fs) c = do
      c₁ ← compile_fields fs c
      ok (emit_with_operand op_build_object (to_u32 (count_fields fs)) c₁)
    compile_expression (array es) c = do
      c₁ ← compile_elements es c
      ok (emit_with_operand op_build_array (to_u32 (count_elements es)) c₁)
    compile_expression (field_access e name) c = do
      c₁ ← compile_expression e c
      ok (emit op_get_field (compile_constant (str name) c₁))
    compile_expression (array_index a i) c = do
      c₁ ← compile_expression a c
      c₂ ← compile_expression i c₁
      ok (emit op_get_index c₂)
    compile_expression (await e) c = do c₁ ← compile_expression e c; ok (emit op_await c₁)
    compile_expression (try e) c = do c₁ ← compile_expression e c; ok (emit op_try c₁)

    -- The loop of compileObject.
    pub compile_fields : ObjectFields → Compiler → Result CompileError Compiler
    compile_fields no_fields c = ok c
    compile_fields (field key e fs) c = do
      c₁ ← compile_expression e (compile_constant (str key) c)
      compile_fields fs c₁

    -- The loop of compileArray.
    pub compile_elements : Elements → Compiler → Result CompileError Compiler
    compile_elements no_elements c = ok c
    compile_elements (element e es) c = do c₁ ← compile_expression e c; compile_elements es c₁
