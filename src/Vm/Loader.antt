-- ===== src/Vm/Loader.antt =====
-- pkg/vm/vm.go: parseBytecode, readConstant and parseBytecodeLayout, which read the container of a
-- compiled route or function: magic, version, constants, instruction count, code.
pub mod Layout
use glyphlang.Prelude.{
  ℕ, zero, suc, ◌+◌, false, not, List, [], ◌∷◌, ◌++◌, ok, err, ◌>>=◌, ◌>>◌, leb, ◌==◌,
  if◌then◌else◌, length, drop, take, get_or, guard,
}
use glyphlang.Prelude.Maps.{str_eq}
use glyphlang.Bytes.{u32, u64}
use glyphlang.Vm.Value.{Value, null, int, float, bool, str, Fallible, bad_bytecode}
use glyphlang.Vm.Machine.{Vm}

-- "GLYP"
abbrev pub magic : List ℕ
magic = 0x47 ∷ 0x4c ∷ 0x59 ∷ 0x50 ∷ []

-- if *offset + n > len(bytecode) { return error }
abbrev pub need : ℕ → ℕ → List ℕ → Fallible (Unit {0})
need n offset bytecode = guard (leb (offset + n) (length bytecode)) bad_bytecode

-- The payload of a constant of the given type, whose bytes start at the offset.
unfoldable pub read_payload : ℕ → List ℕ → ℕ → Fallible (Value × ℕ)
read_payload tag bytecode offset =
    if tag == 0x00
    then ok (null, offset)
    else if tag == 0x01
    then need 8 offset bytecode >> ok (int (u64 (drop offset bytecode)), offset + 8)
    else if tag == 0x02
    then need 8 offset bytecode >> ok (float (u64 (drop offset bytecode)), offset + 8)
    else if tag == 0x03
    then need 1 offset bytecode >> ok (bool (not (get_or bytecode offset 0 == 0)), offset + 1)
    else if tag == 0x04
    then (do
      need 4 offset bytecode
      let n = u32 (drop offset bytecode)
      need n (offset + 4) bytecode
      ok (str (take n (drop (offset + 4) bytecode)), offset + 4 + n))
    else err bad_bytecode

-- readConstant: the constant, and the offset behind it.
unfoldable pub read_constant : List ℕ → ℕ → Fallible (Value × ℕ)
read_constant bytecode offset =
    need 1 offset bytecode >> read_payload (get_or bytecode offset 0) bytecode (offset + 1)

-- The loop over the constants.
unfoldable pub read_constants : ℕ → List ℕ → ℕ → Fallible (List Value × ℕ)
read_constants zero bytecode offset = ok ([], offset)
read_constants (suc n) bytecode offset = do
  (v, offset₁) ← read_constant bytecode offset
  (vs, offset₂) ← read_constants n bytecode offset₁
  ok (v ∷ vs, offset₂)

-- parseBytecode, from behind the magic: the constants, and where the code starts.
unfoldable pub parse_bytecode : List ℕ → ℕ → Fallible (List Value × ℕ)
parse_bytecode bytecode offset = do
  need 4 offset bytecode
  guard (u32 (drop offset bytecode) == 1) bad_bytecode
  need 4 (offset + 4) bytecode
  (vs, offset₁) ← read_constants (u32 (drop (offset + 4) bytecode)) bytecode (offset + 8)
  need 4 offset₁ bytecode
  ok (vs, offset₁ + 4)

-- The checks and the loading of Execute, up to the run of the loop. The constants are added to
-- those that the machine has.
unfoldable pub load : List ℕ → Vm → Fallible Vm
load bytecode vm = do
  need 4 0 bytecode
  guard (str_eq (take 4 bytecode) magic) bad_bytecode
  (vs, offset) ← parse_bytecode bytecode 4
  ok (record vm { constants = vm.constants ++ vs; code = bytecode; pc = offset; halted = false })

-- The bytes that a constant takes in parseBytecodeLayout.
unfoldable pub skip_constant : List ℕ → ℕ → Fallible ℕ
skip_constant bytecode offset =
    let tag = get_or bytecode offset 0 in
    need 1 offset bytecode
    >> (if tag == 0x00
        then ok (offset + 1)
        else if tag == 0x01
        then ok (offset + 1 + 8)
        else if tag == 0x02
        then ok (offset + 1 + 8)
        else if tag == 0x03
        then ok (offset + 1 + 1)
        else if tag == 0x04
        then need 4 (offset + 1) bytecode
          >> ok (offset + 1 + (4 + u32 (drop (offset + 1) bytecode)))
        else err bad_bytecode)

unfoldable pub skip_constants : ℕ → List ℕ → ℕ → Fallible ℕ
skip_constants zero bytecode offset = ok offset
skip_constants (suc n) bytecode offset = skip_constant bytecode offset >>= skip_constants n bytecode

-- parseBytecodeLayout: where the code starts. The version is not looked at.
unfoldable pub parse_layout : List ℕ → Fallible ℕ
parse_layout bytecode = do
  guard (leb 16 (length bytecode)) bad_bytecode
  guard (str_eq (take 4 bytecode) magic) bad_bytecode
  offset ← skip_constants (u32 (drop 8 bytecode)) bytecode 12
  need 4 offset bytecode
  ok (offset + 4)
