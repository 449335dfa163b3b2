-- ===== src/Compiler/Container.antt =====
-- pkg/compiler/compiler.go: serializeConstant, adjustJumpTargets and buildBytecode.
pub mod Adjusting
pub mod Loading
pub mod Whole
use glyphlang.Prelude.{
  ℕ, zero, suc, ◌+◌, ◌%◌, ◌^◌, Bool, true, false, ◌||◌, List, [], ◌∷◌, ◌++◌, Result, ok, err, ◌>>=◌,
  leb, ◌==◌, if◌then◌else◌, length, drop, take,
}
use glyphlang.Bytes.{put_u32, put_u64, u32}
use glyphlang.Vm.Value.{Value, null, int, float, bool, str}
use glyphlang.Vm.Opcode.{
  Opcode, opcode_byte, op_push, op_load_var, op_store_var, op_jump, op_jump_if_false,
  op_jump_if_true, op_iter_next, op_call, op_build_object, op_build_array, op_async,
}
use glyphlang.Vm.Loader.{magic}
use glyphlang.Compiler.State.{Compiler, CompileError, unsupported_constant}
use glyphlang.Compiler.Expression.{to_u32}

-- serializeConstant
unfoldable pub serialize_constant : Value → Result CompileError (List ℕ)
serialize_constant null = ok (0x00 ∷ [])
serialize_constant (int n) = ok (0x01 ∷ put_u64 n)
serialize_constant (float f) = ok (0x02 ∷ put_u64 f)
serialize_constant (bool b) = ok (0x03 ∷ (if b then 0x01 else 0x00) ∷ [])
serialize_constant (str s) = ok (0x04 ∷ (put_u32 (to_u32 (length s)) ++ s))
serialize_constant _ = err unsupported_constant

-- The loop over the constants in buildBytecode.
unfoldable pub serialize_constants : List Value → Result CompileError (List ℕ)
serialize_constants [] = ok []
serialize_constants (v ∷ vs) = do
  b ← serialize_constant v
  bs ← serialize_constants vs
  ok (b ++ bs)

is_one_of : ℕ → List Opcode → Bool
unfolding opcode_byte
is_one_of byte [] = false
is_one_of byte (op ∷ ops) = byte == opcode_byte op || is_one_of byte ops

-- jumpOpcodes
unfoldable pub is_jump : ℕ → Bool
unfolding is_one_of
is_jump byte = is_one_of byte (op_jump ∷ op_jump_if_false ∷ op_jump_if_true ∷ [])

-- hasOperand
unfoldable pub has_operand : ℕ → Bool
unfolding is_one_of
has_operand byte = is_one_of byte (
    op_push ∷ op_load_var ∷ op_store_var ∷ op_jump ∷ op_jump_if_false ∷ op_jump_if_true
    ∷ op_iter_next ∷ op_call ∷ op_build_object ∷ op_build_array ∷ op_async ∷ [])

-- The loop of adjustJumpTargets over the bytes from `i` on; each round reads one byte at least.
unfoldable pub adjust_from : ℕ → ℕ → List ℕ → List ℕ
adjust_from zero header code = code
adjust_from (suc fuel) header [] = []
adjust_from (suc fuel) header (byte ∷ rest) = elim (is_jump byte) [
  | true ↦ elim (leb 4 (length rest)) [
    | true ↦
        byte ∷ (put_u32 ((u32 rest + header) % 2 ^ 32) ++ adjust_from fuel header (drop 4 rest))
    | false ↦ byte ∷ rest
  ]
  | false ↦ elim (has_operand byte) [
    | true ↦ byte ∷ (take 4 rest ++ adjust_from fuel header (drop 4 rest))
    | false ↦ byte ∷ adjust_from fuel header rest
  ]
]

-- adjustJumpTargets
unfoldable pub adjust_jump_targets : ℕ → List ℕ → List ℕ
adjust_jump_targets header code = adjust_from (length code) header code

-- buildBytecode
unfoldable pub build_bytecode : Compiler → Result CompileError (List ℕ)
build_bytecode c = do
  constants ← serialize_constants c.constants
  let header =
      magic
      ++ (put_u32 1
          ++ (put_u32 (to_u32 (length c.constants))
              ++ (constants ++ put_u32 (to_u32 (length c.code)))))
  ok (header ++ adjust_jump_targets (to_u32 (length header)) c.code)
