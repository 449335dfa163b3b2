-- ===== src/Tests/Samples.antt =====
-- The sample values of the tests.
use glyphlang.Prelude.{◌==◌, false, [], ◌∷◌, err, arith}
use glyphlang.Prelude.Maps.{lookup}
use glyphlang.Vm.Value.{int, Host, Heap, async_failed}
use glyphlang.Vm.Machine.{Vm}
use glyphlang.Ast.{Expr, literal, binary, sub, int_literal}
use glyphlang.Compiler.Symbols.{new_global, resolve, resolve_in, or_else}
use glyphlang.Compiler.State.{Compiler, reset}
use glyphlang.Compiler.State.Pool.{FloatEqLaw}
use glyphlang.Compiler.Correct.Emission.{IsReady}

-- Floats compared by bits, with no arithmetic.
abbrev pub sample_host : Host
sample_host = record {
  float_add = λ a b. a;
  float_sub = λ a b. a;
  float_mul = λ a b. a;
  float_div = λ a b. a;
  float_mod = λ a b. a;
  float_neg = λ a. a;
  float_of_int = λ n. n;
  float_eq = λ a b. a == b;
  float_lt = λ a b. false;
  float_le = λ a b. false;
  key_order = λ fs. [];
  await_result = λ i. err (async_failed []);
}

pub sample_law : FloatEqLaw sample_host
sample_law a b h ca cb = ground arith

abbrev pub no_heap : Heap
no_heap = record { arrays = []; objects = [] }

-- A machine without constants and code.
abbrev pub sample_vm : Vm
sample_vm = record {
  stack = [];
  locals = [];
  globals = [];
  constants = [];
  builtins = [];
  functions = [];
  call_stack = [];
  iterators = [];
  next_iter_id = 0;
  next_future = 0;
  pc = 0;
  code = [];
  halted = false;
  max_steps = 0;
  heap = no_heap;
}

-- 7 - 2
abbrev pub difference : Expr
difference = binary sub (literal (int_literal 7)) (literal (int_literal 2))

pub reset-IsReady : IsReady reset
unfolding reset resolve resolve_in or_else lookup new_global
reset-IsReady = record { names = λ name s h. cc; clean = λ i v h. cc }

-- The compiler after `difference`, and after its return.
abbrev pub difference_compiled : Compiler
difference_compiled = record {
  constants = int 7 ∷ int 2 ∷ [];
  code = 0x01 ∷ 0 ∷ 0 ∷ 0 ∷ 0 ∷ 0x01 ∷ 1 ∷ 0 ∷ 0 ∷ 0 ∷ 0x11 ∷ [];
  symbol_table = new_global;
  label_counter = 0;
  loop_stack = [];
}

abbrev pub return_compiled : Compiler
return_compiled = record difference_compiled {
  code = 0x01 ∷ 0 ∷ 0 ∷ 0 ∷ 0 ∷ 0x01 ∷ 1 ∷ 0 ∷ 0 ∷ 0 ∷ 0x11 ∷ 0x61 ∷ [];
}

-- The machine that holds what the compiler has made.
abbrev pub loaded : Compiler → Vm
loaded c = record sample_vm { constants = c.constants; code = c.code }
