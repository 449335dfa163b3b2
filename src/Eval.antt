-- ===== src/Eval.antt =====
-- The meaning of expressions, as a reference for the compiled code: operands from left to right,
-- each evaluated once, the first error ends the evaluation. It is defined on the syntax tree alone.
use glyphlang.Prelude.{ℕ, ◌+◌, List, [], ◌∷◌, ok, ◌>>=◌}
use Prim.Native.Nat.{max}
use glyphlang.Prelude.Maps.{insert}
use glyphlang.Vm.Value.{
  Value, null, int, float, bool, str, Host, Heap, Fields, Fallible, new_array, new_object,
}
use glyphlang.Vm.Arith.{
  add_values, sub_values, mul_values, div_values, mod_values, neg_value, pure_op,
}
use glyphlang.Vm.Compare.{
  and_values, or_values, not_value, eq_values, ne_values, lt_values, gt_values, ge_values,
  le_values,
}
use glyphlang.Vm.Collection.{index_value, field_value}
use glyphlang.Vm.Control.{variable_value, await_value, try_value}
use glyphlang.Ast.{
  Literal, int_literal, string_literal, bool_literal, float_literal, null_literal, BinOp, add, sub,
  mul, div, eq, ne, lt, le, gt, ge, and, or, mod_op, UnOp, not_op, neg_op, Expr, literal, variable,
  binary, unary, object, array, field_access, array_index, await, try, ObjectFields, no_fields,
  field, Elements, no_elements, element,
}

unfoldable pub literal_meaning : Literal → Value
literal_meaning (int_literal n) = int n
literal_meaning (string_literal s) = str s
literal_meaning (bool_literal b) = bool b
literal_meaning (float_literal f) = float f
literal_meaning null_literal = null

-- The first field of a name wins.
unfoldable pub object_of : Fields → Fields
object_of [] = []
object_of ((k, v) ∷ fs) = insert k v (object_of fs)

module _ (host : Host) where
  unfoldable pub binary_meaning : BinOp → Value → Value → Heap → Fallible (Value × Heap)
  binary_meaning add = add_values host
  binary_meaning sub = pure_op (sub_values host)
  binary_meaning mul = pure_op (mul_values host)
  binary_meaning div = pure_op (div_values host)
  binary_meaning mod_op = pure_op (mod_values host)
  binary_meaning eq = pure_op (eq_values host)
  binary_meaning ne = pure_op (ne_values host)
  binary_meaning lt = pure_op (lt_values host)
  binary_meaning le = pure_op (le_values host)
  binary_meaning gt = pure_op (gt_values host)
  binary_meaning ge = pure_op (ge_values host)
  binary_meaning and = pure_op and_values
  binary_meaning or = pure_op or_values

  unfoldable pub unary_meaning : UnOp → Value → Fallible Value
  unary_meaning not_op = not_value
  unary_meaning neg_op = neg_value host

  module _ (locals globals : Fields) where
    unfoldable mutual
      pub eval : Expr → Heap → Fallible (Value × Heap)
      eval (literal l) h = ok (literal_meaning l, h)
      eval (variable name) h = do v ← variable_value locals globals name; ok (v, h)
      eval (binary op l r) h = do (a, h₁) ← eval l h; (b, h₂) ← eval r h₁; binary_meaning op a b h₂
      eval (unary op e) h = do (a, h₁) ← eval e h; v ← unary_meaning op a; ok (v, h₁)
      eval (object fs) h = do (kvs, h₁) ← eval_fields fs h; ok (new_object (object_of kvs) h₁)
      eval (array es) h = do (vs, h₁) ← eval_elements es h; ok (new_array vs h₁)
      eval (field_access e name) h = do
        (o, h₁) ← eval e h
        v ← field_value o (str name) h₁
        ok (v, h₁)
      eval (array_index a i) h = do
        (x, h₁) ← eval a h
        (n, h₂) ← eval i h₁
        v ← index_value x n h₂
        ok (v, h₂)
      eval (await e) h = do (x, h₁) ← eval e h; v ← await_value host x; ok (v, h₁)
      eval (try e) h = do (x, h₁) ← eval e h; v ← try_value x; ok (v, h₁)

      pub eval_fields : ObjectFields → Heap → Fallible (Fields × Heap)
      eval_fields no_fields h = ok ([], h)
      eval_fields (field k e fs) h = do
        (v, h₁) ← eval e h
        (kvs, h₂) ← eval_fields fs h₁
        ok ((k, v) ∷ kvs, h₂)

      pub eval_elements : Elements → Heap → Fallible (List Value × Heap)
      eval_elements no_elements h = ok ([], h)
      eval_elements (element e es) h = do
        (v, h₁) ← eval e h
        (vs, h₂) ← eval_elements es h₁
        ok (v ∷ vs, h₂)

-- The stack that the code of an expression needs above what it finds.
unfoldable mutual
  pub depth : Expr → ℕ
  depth (literal l) = 1
  depth (variable name) = 1
  depth (binary op l r) = max (depth l) (depth r + 1)
  depth (unary op e) = depth e
  depth (object fs) = depth_fields fs
  depth (array es) = depth_elements es
  depth (field_access e name) = max (depth e) 2
  depth (array_index a i) = max (depth a) (depth i + 1)
  depth (await e) = depth e
  depth (try e) = depth e

  pub depth_fields : ObjectFields → ℕ
  depth_fields no_fields = 1
  depth_fields (field k e fs) = max (depth e + 1) (depth_fields fs + 2)

  pub depth_elements : Elements → ℕ
  depth_elements no_elements = 1
  depth_elements (element e es) = max (depth e) (depth_elements es + 1)
