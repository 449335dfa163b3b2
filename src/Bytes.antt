-- ===== src/Bytes.antt =====
-- Little-endian words, as encoding/binary reads and writes them for pkg/compiler/compiler.go and
-- pkg/vm/vm.go. A byte is a number below 256. A uint32 or uint64 is a number below 2 ^ 32 or 2 ^ 64.
use glyphlang.Prelude.{
  ℕ, ◌+◌, ◌*◌, ◌/◌, ◌%◌, ◌^◌, ◌<◌, ◌≡◌, refl, List, [], ◌∷◌, ◌++◌, arith, length, drop,
  append_assoc,
}

-- binary.LittleEndian.PutUint32
unfoldable pub put_u32 : ℕ → List ℕ
put_u32 n = n % 256 ∷ n / 256 % 256 ∷ n / 65536 % 256 ∷ n / 16777216 % 256 ∷ []

-- binary.LittleEndian.PutUint64
unfoldable pub put_u64 : ℕ → List ℕ
put_u64 n = put_u32 n ++ put_u32 (n / 2 ^ 32)

-- binary.LittleEndian.Uint32 of the first four bytes. The callers have checked that these exist.
unfoldable pub u32 : List ℕ → ℕ
u32 (a ∷ b ∷ c ∷ d ∷ _) = a + 256 * b + 65536 * c + 16777216 * d
u32 _ = 0

-- binary.LittleEndian.Uint64 of the first eight bytes.
unfoldable pub u64 : List ℕ → ℕ
u64 bs = u32 bs + 2 ^ 32 * u32 (drop 4 bs)

pub u32-put_u32 : (n : ℕ) (rest : List ℕ) → n < 2 ^ 32 → u32 (put_u32 n ++ rest) ≡ n
unfolding u32 put_u32
u32-put_u32 n rest h = omega arith

u32-put_u32_low : (n : ℕ) (rest : List ℕ) → u32 (put_u32 n ++ rest) ≡ n % 2 ^ 32
unfolding u32 put_u32
u32-put_u32_low n rest = omega arith

pub length-put_u32 : (n : ℕ) → length (put_u32 n) ≡ 4
unfolding put_u32
length-put_u32 n = refl

pub length-put_u64 : (n : ℕ) → length (put_u64 n) ≡ 8
unfolding put_u64 put_u32
length-put_u64 n = refl

drop_four : (n : ℕ) (rest : List ℕ) → drop 4 (put_u32 n ++ rest) ≡ rest
unfolding put_u32
drop_four n rest = refl

pub u64-put_u64 : (n : ℕ) (rest : List ℕ) → n < 2 ^ 64 → u64 (put_u64 n ++ rest) ≡ n
unfolding u64 put_u64
u64-put_u64 n rest h =
    rw (append_assoc, drop_four)
      (omega (
        arith,
        u32-put_u32_low n (put_u32 (n / 2 ^ 32) ++ rest),
        u32-put_u32_low (n / 2 ^ 32) rest,
      ))
