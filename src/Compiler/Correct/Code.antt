-- ===== src/Compiler/Correct/Code.antt =====
-- Which bytes are code for an expression, over a pool of constants: what compileExpression may
-- emit, whatever the places of the constants in the pool.
use glyphlang.Prelude.{ℕ, ◌<◌, ◌^◌, ◌≡◌, List, [], ◌∷◌, ◌++◌, some, get_elem?, arith}
use glyphlang.Prelude.Maps.{Str}
use glyphlang.Bytes.{put_u32}
use glyphlang.Eval.{literal_meaning, depth, depth_fields, depth_elements}
use glyphlang.Vm.Value.{Value, str}
use glyphlang.Vm.Opcode.{
  Opcode, opcode_byte, op_push, op_load_var, op_get_field, op_get_index, op_build_object,
  op_build_array, op_await, op_try,
}
use glyphlang.Ast.{Literal, BinOp, UnOp, Expr, ObjectFields, Elements, count_fields, count_elements}
use glyphlang.Compiler.Expression.{binary_opcode, unary_opcode}

abbrev pub plain : Opcode → List ℕ
plain op = opcode_byte op ∷ []

abbrev pub with_operand : Opcode → ℕ → List ℕ
with_operand op n = opcode_byte op ∷ put_u32 n

-- The pool has the value at a place that an operand can name.
pub record Holds (pool : List Value) (i : ℕ) (v : Value) : Type 0 where
  pub small : i < 2 ^ 32
  pub found : get_elem? pool i ≡ some v

mutual
  pub data Code (pool : List Value) : Expr → List ℕ → Type 0 where
    literal :
        (l : Literal) (i : ℕ)
        → Holds pool i (literal_meaning l)
        → Code pool (Expr.literal l) (with_operand op_push i)
    variable :
        (name : Str) (i : ℕ)
        → Holds pool i (str name)
        → Code pool (Expr.variable name) (with_operand op_load_var i)
    binary :
        (op : BinOp) {l r : Expr} {xs ys : List ℕ}
        → Code pool l xs
        → Code pool r ys
        → Code pool (Expr.binary op l r) (xs ++ (ys ++ plain (binary_opcode op)))
    unary :
        (op : UnOp) {e : Expr} {xs : List ℕ}
        → Code pool e xs
        → Code pool (Expr.unary op e) (xs ++ plain (unary_opcode op))
    object :
        {fs : ObjectFields} {xs : List ℕ}
        → FieldsCode pool fs xs
        → Code pool (Expr.object fs) (xs ++ with_operand op_build_object (count_fields fs))
    array :
        {es : Elements} {xs : List ℕ}
        → ElementsCode pool es xs
        → Code pool (Expr.array es) (xs ++ with_operand op_build_array (count_elements es))
    field_access :
        {e : Expr} {xs : List ℕ} (name : Str) (i : ℕ)
        → Code pool e xs
        → Holds pool i (str name)
        → Code pool
            (Expr.field_access e name)
            (xs ++ (with_operand op_push i ++ plain op_get_field))
    array_index :
        {a i : Expr} {xs ys : List ℕ}
        → Code pool a xs
        → Code pool i ys
        → Code pool (Expr.array_index a i) (xs ++ (ys ++ plain op_get_index))
    await :
        {e : Expr} {xs : List ℕ} → Code pool e xs → Code pool (Expr.await e) (xs ++ plain op_await)
    try : {e : Expr} {xs : List ℕ} → Code pool e xs → Code pool (Expr.try e) (xs ++ plain op_try)

  pub data FieldsCode (pool : List Value) : ObjectFields → List ℕ → Type 0 where
    no_fields : FieldsCode pool ObjectFields.no_fields []
    field :
        (key : Str) (i : ℕ) {e : Expr} {fs : ObjectFields} {xs ys : List ℕ}
        → Holds pool i (str key)
        → Code pool e xs
        → FieldsCode pool fs ys
        → FieldsCode pool (ObjectFields.field key e fs) (with_operand op_push i ++ (xs ++ ys))

  pub data ElementsCode (pool : List Value) : Elements → List ℕ → Type 0 where
    no_elements : ElementsCode pool Elements.no_elements []
    element :
        {e : Expr} {es : Elements} {xs ys : List ℕ}
        → Code pool e xs
        → ElementsCode pool es ys
        → ElementsCode pool (Elements.element e es) (xs ++ ys)

-- A list of parts is no longer than the stack that it needs.
pub count_fields-lt-depth : (fs : ObjectFields) → count_fields fs < depth_fields fs
unfolding count_fields depth_fields
count_fields-lt-depth ObjectFields.no_fields = omega arith
count_fields-lt-depth (ObjectFields.field k e fs) = omega (arith, count_fields-lt-depth fs)

pub count_elements-lt-depth : (es : Elements) → count_elements es < depth_elements es
unfolding count_elements depth_elements
count_elements-lt-depth Elements.no_elements = omega arith
count_elements-lt-depth (Elements.element e es) = omega (arith, count_elements-lt-depth es)

mutual
  unfolding depth depth_fields depth_elements

  depth_pos_in : (e : Expr) → 0 < depth e
  depth_pos_in (Expr.literal l) = omega arith
  depth_pos_in (Expr.variable name) = omega arith
  depth_pos_in (Expr.binary op l r) = omega arith
  depth_pos_in (Expr.unary op e) = depth_pos_in e
  depth_pos_in (Expr.object fs) = depth_fields_pos fs
  depth_pos_in (Expr.array es) = depth_elements_pos es
  depth_pos_in (Expr.field_access e name) = omega arith
  depth_pos_in (Expr.array_index a i) = omega arith
  depth_pos_in (Expr.await e) = depth_pos_in e
  depth_pos_in (Expr.try e) = depth_pos_in e

  depth_fields_pos : (fs : ObjectFields) → 0 < depth_fields fs
  depth_fields_pos ObjectFields.no_fields = omega arith
  depth_fields_pos (ObjectFields.field k e fs) = omega arith

  depth_elements_pos : (es : Elements) → 0 < depth_elements es
  depth_elements_pos Elements.no_elements = omega arith
  depth_elements_pos (Elements.element e es) = omega arith

-- An expression needs room for its value.
pub depth-pos : (e : Expr) → 0 < depth e
depth-pos e = depth_pos_in e
