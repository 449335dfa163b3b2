-- ===== src/Compiler/Container/Whole.antt =====
-- The container that buildBytecode writes, loaded by Execute.
use glyphlang.Prelude.{
  ℕ, ◌+◌, ◌<◌, ◌^◌, ◌≡◌, refl, sym, ◌∙◌, ap, false, List, ◌++◌, append_assoc, ok, >>=-eq-ok, arith,
  length, length-append, take,
}
use glyphlang.Prelude.Maps.{str_eq}
use glyphlang.Bytes.{put_u32, length-put_u32}
use glyphlang.Vm.Machine.{Vm}
use glyphlang.Vm.Loader.{magic, load, parse_bytecode}
use glyphlang.Compiler.State.{Compiler}
use glyphlang.Compiler.Expression.{to_u32}
use glyphlang.Compiler.Container.{serialize_constants, build_bytecode, adjust_jump_targets}
use glyphlang.Compiler.Container.Loading.{
  Remains, Remains-append, Remains-at, need-ok, u32-Remains, AllStorable,
  read_constants-serialize_constants,
}

-- A pool that the container has room for.
pub record IsStorablePool (c : Compiler) : Type 0 where
  pub few : length c.constants < 2 ^ 32
  pub small : AllStorable c.constants

-- The bytes of a container, from the version on.
abbrev body : List ℕ → List ℕ → List ℕ → List ℕ → List ℕ
body count constants size code = put_u32 1 ++ (count ++ (constants ++ (size ++ code)))

module _ (c : Compiler) (constants : List ℕ) (e : serialize_constants c.constants ≡ ok constants)
    (fits : IsStorablePool c) where
  count : List ℕ
  count = put_u32 (length c.constants)

  parse_bytecode-body :
      (bytes : List ℕ) (m : ℕ) (code : List ℕ)
      → Remains bytes 4 (body (put_u32 (length c.constants)) constants (put_u32 m) code)
      → parse_bytecode bytes 4 ≡ ok (c.constants, 16 + length constants)
  unfolding parse_bytecode
  parse_bytecode-body bytes m code r =
      let n = put_u32 (length c.constants) in
      let r8 =
        Remains-at (ap (λ (k : ℕ). 4 + k) (length-put_u32 1))
          (Remains-append (put_u32 1) (n ++ (constants ++ (put_u32 m ++ code))) r) in
      let r12 =
        Remains-at (ap (λ (k : ℕ). 8 + k) (length-put_u32 (length c.constants)))
          (Remains-append n (constants ++ (put_u32 m ++ code)) r8) in
      let last = Remains-append constants (put_u32 m ++ code) r12 in
      let end_at : 12 + length constants + 4 ≡ 16 + length constants = omega arith in
      rw
        (
          need-ok 4 (put_u32 1) _ r (sym (length-put_u32 1)),
          u32-Remains 1 _ r (omega arith),
          need-ok 4 n _ r8 (sym (length-put_u32 (length c.constants))),
          u32-Remains (length c.constants) _ r8 fits.few,
          read_constants-serialize_constants bytes 12 c.constants constants (put_u32 m ++ code) e
              fits.small r12,
          need-ok 4 (put_u32 m) code last (sym (length-put_u32 m)),
          end_at,
        )
        refl

  load-body :
      (bytes : List ℕ) (m : ℕ) (code : List ℕ) (vm : Vm)
      → bytes ≡ magic ++ body (put_u32 (length c.constants)) constants (put_u32 m) code
      → load bytes vm
        ≡ ok (record vm {
          constants = vm.constants ++ c.constants;
          code = bytes;
          pc = 16 + length constants;
          halted = false;
        })
  unfolding load str_eq
  load-body bytes m code vm is =
      let r : Remains bytes 0
          (magic ++ body (put_u32 (length c.constants)) constants (put_u32 m) code) =
        record { rest = is; within = omega arith } in
      rw
        (
          need-ok 4 magic _ r refl,
          ap (take 4) is,
          parse_bytecode-body bytes m code (Remains-append magic _ r),
        )
        refl

-- The bytes up to the code.
abbrev header_of : List ℕ → List ℕ → List ℕ → List ℕ
header_of count constants size = magic ++ (put_u32 1 ++ (count ++ (constants ++ size)))

header_of-append :
    (n : ℕ) (constants size code : List ℕ)
    → header_of (put_u32 n) constants size ++ code ≡ magic ++ body (put_u32 n) constants size code
unfolding put_u32
header_of-append n constants size code =
    ap (λ (l : List ℕ). magic ++ (put_u32 1 ++ (put_u32 n ++ l))) (append_assoc constants size code)

length-header_of :
    (n m : ℕ) (constants : List ℕ)
    → 16 + length constants ≡ length (header_of (put_u32 n) constants (put_u32 m))
unfolding put_u32
length-header_of n m constants = omega (arith, length-append constants (put_u32 m))

-- How a container is made and loaded: a header, behind it the code with the jump targets moved by
-- the length of the header, and a machine that has the constants and stands behind the header.
pub record Loads (c : Compiler) (bytes : List ℕ) : Type 0 where
  pub header : List ℕ
  pub layout : bytes ≡ header ++ adjust_jump_targets (to_u32 (length header)) c.code
  pub loads :
      (vm : Vm)
      → load bytes vm
        ≡ ok (record vm {
          constants = vm.constants ++ c.constants;
          code = bytes;
          pc = length header;
          halted = false;
        })

-- What buildBytecode writes, Execute loads, for less than 2 ^ 32 constants, of which the integers
-- and floats have 64 bits and the strings less than 2 ^ 32 bytes: the machine gets exactly the
-- compiler's constants, behind those that it has, the container as its code, and stands behind the
-- header, where the code begins, with its jump targets moved by the length of the header.
pub build_bytecode-Loads :
    (c : Compiler) (bytes : List ℕ) → build_bytecode c ≡ ok bytes → IsStorablePool c → Loads c bytes
unfolding build_bytecode
build_bytecode-Loads c bytes e fits =
    let head = λ (constants : List ℕ).
      header_of (put_u32 (to_u32 (length c.constants))) constants
        (put_u32 (to_u32 (length c.code))) in
    let (constants, written, e') =
      >>=-eq-ok (serialize_constants c.constants)
        (λ constants.
          ok (head constants ++ adjust_jump_targets (to_u32 (length (head constants))) c.code))
        e in
    let code = adjust_jump_targets (to_u32 (length (head constants))) c.code in
    let whole : bytes ≡ head constants ++ code = cc in
    let same : to_u32 (length c.constants) ≡ length c.constants = omega (arith, fits.few) in
    let grouped : bytes
        ≡ magic
          ++ body (put_u32 (length c.constants)) constants (put_u32 (to_u32 (length c.code))) code =
      whole
      ∙ header_of-append (to_u32 (length c.constants)) constants (put_u32 (to_u32 (length c.code)))
          code
      ∙ ap (λ (n : ℕ). magic ++ body (put_u32 n) constants (put_u32 (to_u32 (length c.code))) code)
          same in
    record {
      header = head constants;
      layout = whole;
      loads = λ vm.
          load-body c constants written fits bytes (to_u32 (length c.code)) code vm grouped
          ∙ ap
              (λ (n : ℕ). ok (record vm {
                constants = vm.constants ++ c.constants;
                code = bytes;
                pc = n;
                halted = false;
              }))
              (length-header_of (to_u32 (length c.constants)) (to_u32 (length c.code)) constants);
    }
