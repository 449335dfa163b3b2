-- ===== src/Parser/Lexer/Progress.antt =====
-- The loops over characters of the lexer end, and what a token that was read has of the lexer.
use glyphlang.Prelude.{
  ℕ, zero, suc, ◌+◌, ◌-◌, ◌≤◌, ◌<◌, ◌≡◌, refl, ap, Bool, true, false, [], ◌∷◌, Option, some, ◌==◌,
  if◌then◌else◌, arith, length, length-drop, drop, Bool-cases, inl, inr,
}
use glyphlang.Prelude.Maps.{Str}
use mathlib.Core.Option
use glyphlang.Parser.Token.{TokenType, Token, illegal, is_illegal, is_eof}
use glyphlang.Parser.Chars.{
  ch, is_letter, is_digit, is_identifier_start, is_identifier_char, is_path_char, read_while,
  read_chars,
}
use glyphlang.Parser.Lexer.{Lexer, reach, token_at}

-- The token is at the lexer's place, and the lexer is then behind some characters of its input; at
-- least one, unless the token ends the loop of Tokenize.
pub record Advances (l : Lexer) (r : Token × Lexer) : Type 0 where
  pub line : r.0.line ≡ l.line
  pub column : r.0.column ≡ l.column
  pub to : Str
  pub reached : r.1 ≡ reach to l
  pub shorter : is_illegal r.0.type ≡ false → is_eof r.0.type ≡ false → length to < length l.rest

-- A reading that ends, with a token and the lexer behind it.
pub data Given (l : Lexer) : Option (Token × Lexer) → Type 0 where
  given : {r : Token × Lexer} → Advances l r → Given l (some r)

-- A loop over characters that ends, and what it leaves.
pub data IsRead (test : ℕ → Bool) (cs : Str) : Option (Str × Str) → Type 0 where
  is_read :
      {r : Str × Str}
      → length r.1 ≤ length cs
      → (test (ch cs) ≡ true → length r.1 < length cs)
      → IsRead test cs (some r)

IsRead-further :
    {test : ℕ → Bool} {c : ℕ} {cs : Str} {m : Option (Str × Str)}
    → IsRead test cs m
    → IsRead test (c ∷ cs) (Option.map (λ r. (c ∷ r.0, r.1)) m)
IsRead-further (is_read le less) = is_read (omega arith) (λ h. omega arith)

read_while-IsRead :
    (test : ℕ → Bool) (fuel : ℕ) (cs : Str)
    → length cs < fuel
    → test 0 ≡ false
    → IsRead test cs (read_while fuel test cs)
unfolding read_while
read_while-IsRead test zero cs fits closed = absurd (omega arith)
read_while-IsRead test (suc fuel) [] fits closed = rw closed (is_read (omega arith) (λ h. cc))
read_while-IsRead test (suc fuel) (c ∷ cs) fits closed = elim (Bool-cases (test c)) [
  | inl e ↦ rw e (IsRead-further (read_while-IsRead test fuel cs (omega arith) closed))
  | inr e ↦ rw e (is_read (omega arith) (λ h. cc))
]

-- A loop whose test 0 does not satisfy ends, with fuel for each character and for the end.
pub read_chars-IsRead :
    (test : ℕ → Bool) (cs : Str) → test 0 ≡ false → IsRead test cs (read_chars test cs)
read_chars-IsRead test cs closed = read_while-IsRead test (suc (length cs)) cs (omega arith) closed

pub ch_behind : (cs : Str) → (ch cs == 0) ≡ false → 0 < length cs
ch_behind [] h = cc
ch_behind (c ∷ cs) h = omega arith

pub shorter_drop : (n : ℕ) (cs : Str) → 0 < length cs → 0 < n → length (drop n cs) < length cs
shorter_drop n cs some_char some_step = omega (arith, length-drop n cs)

-- A token of given characters.
pub taken :
    (t : TokenType) (literal to : Str) (l : Lexer)
    → length to < length l.rest
    → Advances l (token_at l t literal, reach to l)
taken t literal to l less = record {
  line = refl;
  column = refl;
  to = to;
  reached = refl;
  shorter = λ legal more. less;
}

pub refused : (literal to : Str) (l : Lexer) → Advances l (token_at l illegal literal, reach to l)
unfolding is_illegal
refused literal to l = record {
  line = refl;
  column = refl;
  to = to;
  reached = refl;
  shorter = λ legal more. cc;
}

pub reach-rest : (l : Lexer) → l ≡ reach l.rest l
reach-rest l =
    let e : l.column ≡ l.column + (length l.rest - length l.rest) = omega arith in
    ap (λ (n : ℕ). record l { column = n }) e

pub refused_here : (literal : Str) (l : Lexer) → Advances l (token_at l illegal literal, l)
unfolding is_illegal
refused_here literal l = record {
  line = refl;
  column = refl;
  to = l.rest;
  reached = reach-rest l;
  shorter = λ legal more. cc;
}

pub either :
    {l : Lexer} (b : Bool) {r s : Token × Lexer}
    → (b ≡ true → Advances l r)
    → (b ≡ false → Advances l s)
    → Advances l (if b then r else s)
either true p q = p refl
either false p q = q refl

pub if-Given :
    {l : Lexer} (b : Bool) {r s : Option (Token × Lexer)}
    → (b ≡ true → Given l r)
    → (b ≡ false → Given l s)
    → Given l (if b then r else s)
if-Given true p q = p refl
if-Given false p q = q refl

pub zero_no_digit : is_digit 0 ≡ false
unfolding is_digit
zero_no_digit = refl

pub zero_no_identifier : is_identifier_char 0 ≡ false
unfolding is_identifier_char is_letter is_digit
zero_no_identifier = refl

pub zero_no_path : is_path_char 0 ≡ false
unfolding is_path_char is_identifier_char is_letter is_digit
zero_no_path = refl

pub slash_in_path : (c : ℕ) → (c == 0x2f) ≡ true → is_path_char c ≡ true
unfolding is_path_char
slash_in_path c e = rw e refl

pub start_in_identifier : (c : ℕ) → is_identifier_start c ≡ true → is_identifier_char c ≡ true
unfolding is_identifier_start is_identifier_char
start_in_identifier c e = ground arith
