-- ===== src/Int64.antt =====
-- Go's int64, the payload of vm.IntValue and of ast.IntLiteral, as its two's complement bit
-- pattern: a number below 2 ^ 64. The operations are those of the Go language, which wrap.
use glyphlang.Prelude.{ℕ, ◌+◌, ◌-◌, ◌*◌, ◌/◌, ◌%◌, ◌^◌, ◌<◌, Bool, ltb, leb, if◌then◌else◌}

abbrev pub IsInt64 : ℕ → Type 0
IsInt64 a = a < 2 ^ 64

-- int64(n) of a Go int that is not negative.
abbrev pub of_nat : ℕ → ℕ
of_nat n = n % 2 ^ 64

unfoldable pub add : ℕ → ℕ → ℕ
add a b = (a + b) % 2 ^ 64

unfoldable pub sub : ℕ → ℕ → ℕ
sub a b = (a + 2 ^ 64 - b) % 2 ^ 64

unfoldable pub mul : ℕ → ℕ → ℕ
mul a b = a * b % 2 ^ 64

unfoldable pub neg : ℕ → ℕ
neg a = (2 ^ 64 - a) % 2 ^ 64

unfoldable pub is_neg : ℕ → Bool
is_neg a = leb (2 ^ 63) a

-- |a|, which is 2 ^ 63 for the least value.
unfoldable pub magnitude : ℕ → ℕ
unfolding is_neg
magnitude a = if is_neg a then 2 ^ 64 - a else a

-- The quotient truncates towards zero. The callers have checked that `b` is not 0.
unfoldable pub div : ℕ → ℕ → ℕ
unfolding is_neg magnitude neg
div a b =
    let q = magnitude a / magnitude b in
    if is_neg a then (if is_neg b then q else neg q) else (if is_neg b then neg q else q)

-- The remainder has the sign of the dividend.
unfoldable pub mod_ : ℕ → ℕ → ℕ
unfolding is_neg magnitude neg
mod_ a b = let r = magnitude a % magnitude b in if is_neg a then neg r else r

-- Signed order: adding 2 ^ 63 turns it into the order of the patterns.
unfoldable pub lt : ℕ → ℕ → Bool
lt a b = ltb ((a + 2 ^ 63) % 2 ^ 64) ((b + 2 ^ 63) % 2 ^ 64)

unfoldable pub le : ℕ → ℕ → Bool
le a b = leb ((a + 2 ^ 63) % 2 ^ 64) ((b + 2 ^ 63) % 2 ^ 64)
