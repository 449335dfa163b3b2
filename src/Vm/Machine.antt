-- ===== src/Vm/Machine.antt =====
-- pkg/vm/vm.go: the state of the machine, its stack and its operands.
-- The stack is a list, last pushed first.
use glyphlang.Prelude.{
  ℕ, ◌+◌, Bool, false, List, [], ◌∷◌, Option, ok, err, leb, if◌then◌else◌, length, drop, get_elem?,
  or_fail,
}
use glyphlang.Prelude.Maps.{Str}
use glyphlang.Bytes.{u32}
use glyphlang.Vm.Value.{
  Value, Fallible, Fields, Heap, Builtin, stack_underflow, truncated_operand,
  constant_out_of_bounds, name_not_string,
}

-- Iterator
pub record Iterator : Type 0 where
  pub collection : Value
  pub index : ℕ
  pub keys : List Str

-- FunctionValue; `bytecode` and `constants` are `none` where the source has nil.
pub record FunctionValue : Type 0 where
  pub name : Str
  pub param_names : List Str
  pub code_offset : ℕ
  pub code_length : ℕ
  pub bytecode : Option (List ℕ)
  pub constants : Option (List Value)

-- CallFrame
pub record CallFrame : Type 0 where
  pub return_pc : ℕ
  pub return_bytecode : List ℕ
  pub return_constants : List Value
  pub locals : Fields

-- VM, with no WebSocket handler and no profiler. `next_future` numbers the futures, which the
-- source tells apart by their address; `heap` holds what arrays and objects refer to.
pub record Vm : Type 0 where
  pub stack : List Value
  pub locals : Fields
  pub globals : Fields
  pub constants : List Value
  pub builtins : List (Str × Builtin)
  pub functions : List (Str × FunctionValue)
  pub call_stack : List CallFrame
  pub iterators : List (ℕ × Iterator)
  pub next_iter_id : ℕ
  pub next_future : ℕ
  pub pc : ℕ
  pub code : List ℕ
  pub halted : Bool
  pub max_steps : ℕ
  pub heap : Heap

abbrev pub max_stack_size : ℕ
max_stack_size = 10000

-- (vm *VM) Push: a full stack drops the value.
unfoldable pub push : Value → Vm → Vm
push v vm = if leb max_stack_size (length vm.stack) then vm else record vm { stack = v ∷ vm.stack }

pop_from : List Value → Vm → Fallible (Value × Vm)
pop_from [] vm = err stack_underflow
pop_from (v ∷ s) vm = ok (v, record vm { stack = s })

-- (vm *VM) Pop
unfoldable pub pop : Vm → Fallible (Value × Vm)
unfolding pop_from
pop vm = pop_from vm.stack vm

-- (vm *VM) readOperand
unfoldable pub read_operand : Vm → Fallible (ℕ × Vm)
read_operand vm =
    if leb (vm.pc + 4) (length vm.code)
    then ok (u32 (drop vm.pc vm.code), record vm { pc = vm.pc + 4 })
    else err truncated_operand

-- vm.constants[i], with the bounds check that precedes it.
unfoldable pub constant_at : ℕ → Vm → Fallible Value
constant_at i vm = or_fail (get_elem? vm.constants i) constant_out_of_bounds

-- name, ok := v.(StringValue)
unfoldable pub expect_name : Value → Fallible Str
expect_name (Value.str s) = ok s
expect_name _ = err name_not_string

-- The Reset of a machine for its next use. The function table and the call stack stay.
unfoldable pub reset : Vm → Vm
reset vm = record vm {
  stack = [];
  locals = [];
  constants = [];
  iterators = [];
  next_iter_id = 0;
  pc = 0;
  code = [];
  halted = false;
}

-- (vm *VM) SetMaxSteps
unfoldable pub set_max_steps : ℕ → Vm → Vm
set_max_steps n vm = record vm { max_steps = n }
