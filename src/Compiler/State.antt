-- ===== src/Compiler/State.antt =====
-- pkg/compiler/compiler.go: the compiler's state, its constant pool and its code buffer.
pub mod Pool
use glyphlang.Prelude.{
  ℕ, zero, suc, ◌+◌, Bool, true, false, not, ◌&&◌, ◌||◌, List, [], ◌∷◌, ◌++◌, Option, some, none,
  ◌==◌, if◌then◌else◌, length,
}
use glyphlang.Prelude.Maps.{str_eq}
use glyphlang.Bytes.{put_u32}
use glyphlang.Vm.Value.{Value, int, Host}
use glyphlang.Vm.Opcode.{Opcode, opcode_byte}
use glyphlang.Vm.Compare.{values_equal}
use glyphlang.Compiler.Symbols.{SymbolTable, new_global}

pub data CompileError : Type 0 where
  undefined_variable unsupported_constant redeclared_variable undeclared_variable : CompileError
  break_outside_loop continue_outside_loop : CompileError

-- loopContext
pub record LoopContext : Type 0 where
  pub continue_target : ℕ
  pub break_jumps : List ℕ

-- Compiler, without the optimizer and the macro expander. The innermost loop is the first of the
-- loop stack.
pub record Compiler : Type 0 where
  pub constants : List Value
  pub code : List ℕ
  pub symbol_table : SymbolTable
  pub label_counter : ℕ
  pub loop_stack : List LoopContext

-- The state of NewCompiler, and after Reset.
unfoldable pub reset : Compiler
reset = record {
  constants = [];
  code = [];
  symbol_table = new_global;
  label_counter = 0;
  loop_stack = [];
}

module _ (host : Host) where
  -- The loop of addConstant: the place of the first equal constant, counted from `i`.
  unfoldable pub find_constant : ℕ → Value → List Value → Option ℕ
  find_constant i val [] = none
  find_constant i val (existing ∷ rest) =
      if values_equal host existing val then some i else find_constant (suc i) val rest

  unfoldable pub add_found : Option ℕ → Value → Compiler → ℕ × Compiler
  add_found (some i) val c = (i, c)
  add_found none val c = (length c.constants, record c { constants = c.constants ++ val ∷ [] })

  -- addConstant
  unfoldable pub add_constant : Value → Compiler → ℕ × Compiler
  unfolding add_found
  add_constant val c = add_found (find_constant 0 val c.constants) val c

-- emit
unfoldable pub emit : Opcode → Compiler → Compiler
emit op c = record c { code = c.code ++ opcode_byte op ∷ [] }

-- emitWithOperand
unfoldable pub emit_with_operand : Opcode → ℕ → Compiler → Compiler
emit_with_operand op operand c = record c { code = c.code ++ opcode_byte op ∷ put_u32 operand }
