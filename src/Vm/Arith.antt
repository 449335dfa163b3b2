-- ===== src/Vm/Arith.antt =====
-- pkg/vm/vm.go: execAdd to execMod and execNeg, on the values that they pop.
use glyphlang.Prelude.{◌++◌, ok, err, ◌>>=◌, ◌==◌, if◌then◌else◌}
use glyphlang.Int64
use glyphlang.Vm.Value.{
  Value, int, float, str, array, Heap, Host, Fallible, type_error, division_by_zero, modulo_by_zero,
  array_at, new_array,
}
use glyphlang.Vm.Machine.{Vm, push, pop}

-- `b`, which lies on top, and `a` are popped; the result is pushed.
unfoldable pub exec_binary : (Value → Value → Heap → Fallible (Value × Heap)) → Vm → Fallible Vm
exec_binary f vm = do
  (b, vm₁) ← pop vm
  (a, vm₂) ← pop vm₁
  (v, h) ← f a b vm₂.heap
  ok (push v (record vm₂ { heap = h }))

unfoldable pub exec_unary : (Value → Fallible Value) → Vm → Fallible Vm
exec_unary f vm = do (a, vm₁) ← pop vm; v ← f a; ok (push v vm₁)

-- An operation that makes no array or object.
unfoldable pub pure_op :
    (Value → Value → Fallible Value) → Value → Value → Heap → Fallible (Value × Heap)
pure_op f a b h = do v ← f a b; ok (v, h)

module _ (host : Host) where
  open host use {
    float_add, float_sub, float_mul, float_div, float_mod, float_neg, float_of_int, float_eq,
  }

  unfoldable pub add_values : Value → Value → Heap → Fallible (Value × Heap)
  add_values (int a) (int b) h = ok (int (Int64.add a b), h)
  add_values (int a) (float b) h = ok (float (float_add (float_of_int a) b), h)
  add_values (float a) (float b) h = ok (float (float_add a b), h)
  add_values (float a) (int b) h = ok (float (float_add a (float_of_int b)), h)
  add_values (str a) (str b) h = ok (str (a ++ b), h)
  add_values (array a) (array b) h = ok (new_array (array_at h a ++ array_at h b) h)
  add_values _ _ h = err type_error

  unfoldable pub sub_values : Value → Value → Fallible Value
  sub_values (int a) (int b) = ok (int (Int64.sub a b))
  sub_values (int a) (float b) = ok (float (float_sub (float_of_int a) b))
  sub_values (float a) (float b) = ok (float (float_sub a b))
  sub_values (float a) (int b) = ok (float (float_sub a (float_of_int b)))
  sub_values _ _ = err type_error

  unfoldable pub mul_values : Value → Value → Fallible Value
  mul_values (int a) (int b) = ok (int (Int64.mul a b))
  mul_values (int a) (float b) = ok (float (float_mul (float_of_int a) b))
  mul_values (float a) (float b) = ok (float (float_mul a b))
  mul_values (float a) (int b) = ok (float (float_mul a (float_of_int b)))
  mul_values _ _ = err type_error

  -- The bit pattern of the float 0 is 0.
  unfoldable pub div_values : Value → Value → Fallible Value
  div_values (int a) (int b) = if b == 0 then err division_by_zero else ok (int (Int64.div a b))
  div_values (int a) (float b) =
      if float_eq b 0 then err division_by_zero else ok (float (float_div (float_of_int a) b))
  div_values (float a) (float b) =
      if float_eq b 0 then err division_by_zero else ok (float (float_div a b))
  div_values (float a) (int b) =
      if b == 0 then err division_by_zero else ok (float (float_div a (float_of_int b)))
  div_values _ _ = err type_error

  unfoldable pub mod_values : Value → Value → Fallible Value
  mod_values (int a) (int b) = if b == 0 then err modulo_by_zero else ok (int (Int64.mod_ a b))
  mod_values (int a) (float b) =
      if float_eq b 0 then err modulo_by_zero else ok (float (float_mod (float_of_int a) b))
  mod_values (float a) (float b) =
      if float_eq b 0 then err modulo_by_zero else ok (float (float_mod a b))
  mod_values (float a) (int b) =
      if b == 0 then err modulo_by_zero else ok (float (float_mod a (float_of_int b)))
  mod_values _ _ = err type_error

  unfoldable pub neg_value : Value → Fallible Value
  neg_value (int a) = ok (int (Int64.neg a))
  neg_value (float a) = ok (float (float_neg a))
  neg_value _ = err type_error

  unfoldable pub exec_add : Vm → Fallible Vm
  exec_add = exec_binary add_values

  unfoldable pub exec_sub : Vm → Fallible Vm
  exec_sub = exec_binary (pure_op sub_values)

  unfoldable pub exec_mul : Vm → Fallible Vm
  exec_mul = exec_binary (pure_op mul_values)

  unfoldable pub exec_div : Vm → Fallible Vm
  exec_div = exec_binary (pure_op div_values)

  unfoldable pub exec_mod : Vm → Fallible Vm
  exec_mod = exec_binary (pure_op mod_values)

  unfoldable pub exec_neg : Vm → Fallible Vm
  exec_neg = exec_unary neg_value
