-- ===== src/Vm/Compare.antt =====
-- pkg/vm/vm.go: the comparisons, the logical operators and valuesEqual.
use glyphlang.Prelude.{Bool, true, false, not, ◌&&◌, ◌||◌, ok, err, ◌==◌}
use glyphlang.Prelude.Maps.{str_eq, str_lt}
use glyphlang.Int64
use glyphlang.Vm.Value.{Value, null, int, float, bool, str, Host, Fallible, type_error}
use glyphlang.Vm.Machine.{Vm}
use glyphlang.Vm.Arith.{exec_binary, exec_unary, pure_op}

unfoldable pub and_values : Value → Value → Fallible Value
and_values (bool a) (bool b) = ok (bool (a && b))
and_values _ _ = err type_error

unfoldable pub or_values : Value → Value → Fallible Value
or_values (bool a) (bool b) = ok (bool (a || b))
or_values _ _ = err type_error

unfoldable pub not_value : Value → Fallible Value
not_value (bool a) = ok (bool (not a))
not_value _ = err type_error

unfoldable pub exec_and : Vm → Fallible Vm
exec_and = exec_binary (pure_op and_values)

unfoldable pub exec_or : Vm → Fallible Vm
exec_or = exec_binary (pure_op or_values)

unfoldable pub exec_not : Vm → Fallible Vm
exec_not = exec_unary not_value

module _ (host : Host) where
  open host use {float_eq, float_lt, float_le, float_of_int}

  -- valuesEqual: values of different types are never equal, and neither are two arrays or objects.
  unfoldable pub values_equal : Value → Value → Bool
  values_equal (int a) (int b) = a == b
  values_equal (float a) (float b) = float_eq a b
  values_equal (bool a) (bool b) = (a && b) || (not a && not b)
  values_equal (str a) (str b) = str_eq a b
  values_equal null null = true
  values_equal _ _ = false

  unfoldable pub lt_values : Value → Value → Fallible Value
  lt_values (int a) (int b) = ok (bool (Int64.lt a b))
  lt_values (int a) (float b) = ok (bool (float_lt (float_of_int a) b))
  lt_values (float a) (float b) = ok (bool (float_lt a b))
  lt_values (float a) (int b) = ok (bool (float_lt a (float_of_int b)))
  lt_values (str a) (str b) = ok (bool (str_lt a b))
  lt_values _ _ = err type_error

  unfoldable pub gt_values : Value → Value → Fallible Value
  gt_values (int a) (int b) = ok (bool (Int64.lt b a))
  gt_values (int a) (float b) = ok (bool (float_lt b (float_of_int a)))
  gt_values (float a) (float b) = ok (bool (float_lt b a))
  gt_values (float a) (int b) = ok (bool (float_lt (float_of_int b) a))
  gt_values (str a) (str b) = ok (bool (str_lt b a))
  gt_values _ _ = err type_error

  unfoldable pub ge_values : Value → Value → Fallible Value
  ge_values (int a) (int b) = ok (bool (Int64.le b a))
  ge_values (int a) (float b) = ok (bool (float_le b (float_of_int a)))
  ge_values (float a) (float b) = ok (bool (float_le b a))
  ge_values (float a) (int b) = ok (bool (float_le (float_of_int b) a))
  ge_values (str a) (str b) = ok (bool (not (str_lt a b)))
  ge_values _ _ = err type_error

  unfoldable pub le_values : Value → Value → Fallible Value
  le_values (int a) (int b) = ok (bool (Int64.le a b))
  le_values (int a) (float b) = ok (bool (float_le (float_of_int a) b))
  le_values (float a) (float b) = ok (bool (float_le a b))
  le_values (float a) (int b) = ok (bool (float_le a (float_of_int b)))
  le_values (str a) (str b) = ok (bool (not (str_lt b a)))
  le_values _ _ = err type_error

  unfoldable pub eq_values : Value → Value → Fallible Value
  eq_values a b = ok (bool (values_equal a b))

  unfoldable pub ne_values : Value → Value → Fallible Value
  ne_values a b = ok (bool (not (values_equal a b)))

  unfoldable pub exec_eq : Vm → Fallible Vm
  exec_eq = exec_binary (pure_op eq_values)

  unfoldable pub exec_ne : Vm → Fallible Vm
  exec_ne = exec_binary (pure_op ne_values)

  unfoldable pub exec_lt : Vm → Fallible Vm
  exec_lt = exec_binary (pure_op lt_values)

  unfoldable pub exec_gt : Vm → Fallible Vm
  exec_gt = exec_binary (pure_op gt_values)

  unfoldable pub exec_ge : Vm → Fallible Vm
  exec_ge = exec_binary (pure_op ge_values)

  unfoldable pub exec_le : Vm → Fallible Vm
  exec_le = exec_binary (pure_op le_values)
