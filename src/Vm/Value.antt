-- ===== src/Vm/Value.antt =====
-- pkg/vm/value.go: the runtime values, and what the machine reads of the world around it.
-- Arrays and objects are Go slices and maps, which copies of a value share; so a value holds a
-- reference, and the heap holds the contents. A float64 is its bit pattern. FunctionValue is no
-- constructor here: no instruction pushes one, and the function table holds them.
use glyphlang.Prelude.{ℕ, Bool, List, [], ◌∷◌, ◌++◌, length, get_or, set, Result}
use glyphlang.Prelude.Maps.{Str}

pub data Value : Type 0 where
  null : Value
  int : ℕ → Value
  float : ℕ → Value
  bool : Bool → Value
  str : Str → Value
  array : ℕ → Value
  object : ℕ → Value
  future : ℕ → Value
  -- ResultValue, with IsErr false and true
  result_ok : Value → Value
  result_err : Str → Value

-- The errors that the instructions return; one constructor for each message.
pub data Error : Type 0 where
  stack_underflow truncated_operand pc_out_of_bounds constant_out_of_bounds : Error
  type_error division_by_zero modulo_by_zero index_out_of_bounds : Error
  name_not_string undefined_variable undefined_function field_not_found : Error
  invalid_iterator iterator_exhausted cannot_iterate : Error
  no_websocket_handler bad_async_body unknown_opcode bad_bytecode step_limit : Error
  -- ERROR_VALUE:message, and an error of a builtin or of an awaited future
  error_value : Str → Error
  builtin_failed : Str → Error
  async_failed : Str → Error

abbrev pub Fallible : Type 0 → Type 0
Fallible A = Result Error A

abbrev pub Fields : Type 0
Fields = List (Str × Value)

pub record Heap : Type 0 where
  pub arrays : List (List Value)
  pub objects : List Fields

-- A reference on the stack was made by an allocation, so that the default is never read.
abbrev pub array_at : Heap → ℕ → List Value
array_at h r = get_or h.arrays r []

abbrev pub object_at : Heap → ℕ → Fields
object_at h r = get_or h.objects r []

-- A new array or object: its value, and the heap that holds it.
unfoldable pub new_array : List Value → Heap → Value × Heap
new_array vs h = (array (length h.arrays), record h { arrays = h.arrays ++ vs ∷ [] })

unfoldable pub new_object : Fields → Heap → Value × Heap
new_object fs h = (object (length h.objects), record h { objects = h.objects ++ fs ∷ [] })

unfoldable pub write_array : ℕ → ℕ → Value → Heap → Heap
write_array r i v h = record h { arrays = set h.arrays r (set (array_at h r) i v) }

unfoldable pub write_object : ℕ → Fields → Heap → Heap
write_object r fs h = record h { objects = set h.objects r fs }

-- BuiltinFunc; a builtin may read and change what its arguments refer to.
abbrev pub Builtin : Type 0
Builtin = List Value → Heap → Fallible (Value × Heap)

-- What is not code of the machine: the float64 arithmetic of the processor on bit patterns, the
-- order in which Go ranges over a map, and what awaiting a future gives (its goroutine's outcome,
-- or the time-out).
pub record Host : Type 0 where
  pub float_add : ℕ → ℕ → ℕ
  pub float_sub : ℕ → ℕ → ℕ
  pub float_mul : ℕ → ℕ → ℕ
  pub float_div : ℕ → ℕ → ℕ
  pub float_mod : ℕ → ℕ → ℕ
  pub float_neg : ℕ → ℕ
  pub float_of_int : ℕ → ℕ
  pub float_eq : ℕ → ℕ → Bool
  pub float_lt : ℕ → ℕ → Bool
  pub float_le : ℕ → ℕ → Bool
  pub key_order : Fields → List Str
  pub await_result : ℕ → Fallible Value
