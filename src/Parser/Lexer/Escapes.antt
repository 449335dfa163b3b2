-- ===== src/Parser/Lexer/Escapes.antt =====
-- The loop of readString ends, and reads no further than its input.
use glyphlang.Prelude.{
  ℕ, zero, suc, ◌≤◌, ◌<◌, ◌≡◌, refl, Bool, true, false, ◌||◌, [], ◌∷◌, Option, some, none, ◌==◌,
  if◌then◌else◌, arith, length, length-drop, drop,
}
use glyphlang.Prelude.Maps.{Str}
use mathlib.Core.Option
use glyphlang.Parser.Chars.{
  ch, Reading, reads, fails, prepend, read_string_body, read_escape, escape_case, after_escape,
  read_hex_escape, read_hex_digits, find_escape, escapes,
}

-- How far a part of a string is read: `n` characters are left at most.
pub data Within (n : ℕ) : Reading → Type 0 where
  read : {bytes rest : Str} → length rest ≤ n → Within n (reads bytes rest)
  failed : {message rest : Str} → Within n (fails message rest)

prepend-Within : {n : ℕ} (bytes : Str) {r : Reading} → Within n r → Within n (prepend bytes r)
prepend-Within bytes (read w) = read w
prepend-Within bytes failed = failed

Within-le : {n m : ℕ} {r : Reading} → n ≤ m → Within n r → Within m r
Within-le h (read w) = read (omega arith)
Within-le h failed = failed

read_hex_digits-length : (n : ℕ) (cs : Str) → length (read_hex_digits n cs).1 ≤ length cs
unfolding read_hex_digits
read_hex_digits-length zero cs = omega arith
read_hex_digits-length (suc n) [] = omega arith
read_hex_digits-length (suc n) (c ∷ cs) = ground (arith, read_hex_digits-length n cs)

if-Within :
    {n : ℕ} (b : Bool) {r s : Reading} → Within n r → Within n s → Within n (if b then r else s)
if-Within true p q = p
if-Within false p q = q

read_hex_escape-Within :
    (n : ℕ) (write : ℕ → Str) (message cs : Str)
    → Within (length cs) (read_hex_escape n write message cs)
unfolding read_hex_escape
read_hex_escape-Within n write message cs =
    if-Within (length (read_hex_digits n (drop 1 cs)).0 == n)
      (read (omega (arith, read_hex_digits-length n (drop 1 cs), length-drop 1 cs))) failed

escape_case-Within : (o : Option ℕ) (cs : Str) → Within (length cs) (escape_case o cs)
unfolding escape_case
escape_case-Within (some byte) cs = read (omega (arith, length-drop 1 cs))
escape_case-Within none cs =
    if-Within (ch cs == 0x78) (read_hex_escape-Within _ _ _ cs)
      (if-Within (ch cs == 0x75) (read_hex_escape-Within _ _ _ cs) failed)

read_escape-Within : (cs : Str) → Within (length cs) (read_escape cs)
unfolding read_escape
read_escape-Within cs = escape_case-Within (find_escape (ch cs) escapes) cs

-- The same of a loop, which ends.
pub data Bounded (n : ℕ) : Option Reading → Type 0 where
  bounded : {r : Reading} → Within n r → Bounded n (some r)

prepend-Bounded :
    {n m : ℕ} (bytes : Str) {r : Option Reading}
    → n ≤ m
    → Bounded n r
    → Bounded m (Option.map (prepend bytes) r)
prepend-Bounded bytes h (bounded w) = bounded (Within-le h (prepend-Within bytes w))

if-Bounded :
    {n : ℕ} (b : Bool) {r s : Option Reading}
    → (b ≡ true → Bounded n r)
    → (b ≡ false → Bounded n s)
    → Bounded n (if b then r else s)
if-Bounded true p q = p refl
if-Bounded false p q = q refl

after_escape-Bounded :
    {n : ℕ} {next : Str → Option Reading} {r : Reading}
    → Within n r
    → ((rest : Str) → length rest ≤ n → Bounded (length rest) (next rest))
    → Bounded (suc n) (after_escape next r)
unfolding after_escape
after_escape-Bounded (read {bytes = bytes} {rest} w) later =
    prepend-Bounded bytes (omega arith) (later rest w)
after_escape-Bounded failed later = bounded failed

-- The loop of readString ends, with fuel for each character and for the end.
pub read_string_body-Bounded :
    (fuel quote : ℕ) (cs : Str)
    → length cs < fuel
    → Bounded (length cs) (read_string_body fuel quote cs)
unfolding read_string_body
read_string_body-Bounded zero quote cs fits = absurd (omega arith)
read_string_body-Bounded (suc fuel) quote [] fits =
    if-Bounded (0 == quote || 0 == 0 || 0 == 0x0a) (λ e. bounded (read (omega arith)))
      (λ e. absurd (ground arith))
read_string_body-Bounded (suc fuel) quote (c ∷ cs) fits =
    if-Bounded (c == quote || c == 0 || c == 0x0a) (λ e. bounded (read (omega arith)))
      (λ e.
        if-Bounded (c == 0x5c)
          (λ e₁.
            after_escape-Bounded (read_escape-Within cs)
              (λ rest shorter. read_string_body-Bounded fuel quote rest (omega arith)))
          (λ e₁.
            prepend-Bounded (c ∷ []) (omega arith)
              (read_string_body-Bounded fuel quote cs (omega arith))))
