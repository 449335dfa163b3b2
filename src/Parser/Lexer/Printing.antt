-- ===== src/Parser/Lexer/Printing.antt =====
-- Words and numbers that are printed with a blank behind each, and read again.
use glyphlang.Prelude.{
  ℕ, zero, suc, length, length-append, ◌≤◌, ◌<◌, ◌≡◌, ◌⊎◌, refl, Bool, true, false, not, ◌&&◌, List,
  [], ◌∷◌, ◌++◌, append_assoc, some, none, ◌==◌, arith, Bool-cases, inl, inr,
}
use glyphlang.Prelude.Maps.{Str, str_eq, lookup}
use glyphlang.Parser.Token.{
  TokenType, ident, integer, float, is_illegal, is_eof, find_char, single_chars, leading_chars,
  keywords,
}
use glyphlang.Parser.Chars.{
  is_letter, is_digit, is_identifier_start, is_identifier_char, read_while, read_chars,
}
use glyphlang.Parser.Lexer.Progress.{start_in_identifier}
use glyphlang.Parser.Lexer.{
  keyword_type, read_identifier, read_number, read_fraction, next_other, token_case, next_token,
  after_token, round_at,
}
use glyphlang.Parser.Lexer.Symbols.{lexer_at, Emits, written, round_of}

-- The characters that nextToken leaves to its last cases: digits, quotes, and those of identifiers.
abbrev IsOther : ℕ → Type 0
IsOther c =
    ((0x30 ≤ c) × (c ≤ 0x39))
    ⊎ (((0x41 ≤ c) × (c ≤ 0x5a)) ⊎ ((c ≡ 0x5f) ⊎ (((0x61 ≤ c) × (c ≤ 0x7a)) ⊎ (0x80 ≤ c))))

start-IsOther : (c : ℕ) → is_identifier_start c ≡ true → IsOther c
unfolding is_identifier_start is_letter
start-IsOther c e = ground arith

digit-IsOther : (c : ℕ) → is_digit c ≡ true → IsOther c
unfolding is_digit
digit-IsOther c e = inl (ground arith)

no_digit : (c : ℕ) → is_identifier_start c ≡ true → is_digit c ≡ false
unfolding is_identifier_start is_letter is_digit
no_digit c e = ground arith

no_single : (c : ℕ) → IsOther c → find_char c single_chars ≡ none
unfolding find_char
no_single c h = ground arith

no_leading : (c : ℕ) → IsOther c → find_char c leading_chars ≡ none
unfolding find_char
no_leading c h = ground arith

differs : (c d : ℕ) → IsOther c → d < 0x30 → (c == d) ≡ false
differs c d h small = ground arith

-- All characters satisfy a test.
abbrev pub All : (ℕ → Bool) → Str → Type 0
All test [] = Unit {0}
All test (c ∷ cs) = (test c ≡ true) × All test cs

-- A loop over characters reads those that satisfy its test, up to one that does not.
read_while-append :
    (fuel : ℕ) (test : ℕ → Bool) (xs : Str) (y : ℕ) (ys : Str)
    → length xs < fuel
    → All test xs
    → test y ≡ false
    → read_while fuel test (xs ++ y ∷ ys) ≡ some (xs, y ∷ ys)
unfolding read_while
read_while-append zero test xs y ys fits all stop = absurd (omega arith)
read_while-append (suc fuel) test [] y ys fits all stop = rw stop refl
read_while-append (suc fuel) test (x ∷ xs) y ys fits (one, all) stop =
    rw (one, read_while-append fuel test xs y ys (omega arith) all stop) refl

read_chars-append :
    (test : ℕ → Bool) (xs : Str) (y : ℕ) (ys : Str)
    → All test xs
    → test y ≡ false
    → read_chars test (xs ++ y ∷ ys) ≡ some (xs, y ∷ ys)
read_chars-append test xs y ys all stop =
    read_while-append (suc (length (xs ++ y ∷ ys))) test xs y ys
      (omega (arith, length-append {0} xs (y ∷ ys))) all stop

blank_ends_identifier : is_identifier_char 0x20 ≡ false
unfolding is_identifier_char is_letter is_digit
blank_ends_identifier = refl

blank_ends_digits : is_digit 0x20 ≡ false
unfolding is_digit
blank_ends_digits = refl

point_ends_digits : is_digit 0x2e ≡ false
unfolding is_digit
point_ends_digits = refl

-- Neither ILLEGAL nor EOF.
abbrev is_plain : TokenType → Bool
is_plain t = not (is_illegal t) && not (is_eof t)

all_plain : List (Str × TokenType) → Bool
all_plain [] = true
all_plain ((key, t) ∷ rest) = is_plain t && all_plain rest

lookup-all_plain :
    (word : Str) (table : List (Str × TokenType))
    → all_plain table ≡ true
    → is_plain (elim (lookup word table) [ some t ↦ t | none ↦ ident ]) ≡ true
unfolding all_plain lookup is_illegal is_eof
lookup-all_plain word [] all = refl
lookup-all_plain word ((key, t) ∷ rest) all = elim (Bool-cases (str_eq key word)) [
  | inl e ↦ rw e (ground arith)
  | inr e ↦ rw e (lookup-all_plain word rest (ground arith))
]

keyword_type-plain :
    (word : Str) → (is_illegal (keyword_type word) ≡ false) × (is_eof (keyword_type word) ≡ false)
unfolding keyword_type all_plain is_illegal is_eof
keyword_type-plain word =
    let h = lookup-all_plain word keywords refl in (ground arith, ground arith)

module _ (rest : Str) (line column : ℕ) (v : Bool) (before : Str) where
  other-round :
      (c : ℕ) (cs : Str)
      → IsOther c
      → round_at (lexer_at (c ∷ cs) line column v before)
        ≡ after_token (next_other (lexer_at (c ∷ cs) line column v before))
  unfolding round_at next_token token_case
  other-round c cs h =
      rw
        (
          differs c 0 h (omega arith),
          differs c 0x0a h (omega arith),
          differs c 0x23 h (omega arith),
          differs c 0x2f h (omega arith),
          no_single c h,
          no_leading c h,
          differs c 0x2f h (omega arith),
          differs c 0x2e h (omega arith),
        )
        refl

  -- What is read before the blank, from a character of the last cases on.
  other-Emits :
      (c : ℕ) (cs : Str) {t : TokenType} {literal : Str}
      → IsOther c
      → Emits t literal rest
          (after_token (next_other (lexer_at (c ∷ cs ++ 0x20 ∷ rest) line column v before)))
      → Emits t literal rest (round_of rest line column v before (c ∷ cs))
  other-Emits c cs h e = rw (other-round c (cs ++ 0x20 ∷ rest) h) e

  pub word-Emits :
      (c : ℕ) (cs : Str)
      → is_identifier_start c ≡ true
      → All is_identifier_char cs
      → Emits (keyword_type (c ∷ cs)) (c ∷ cs) rest (round_of rest line column v before (c ∷ cs))
  unfolding next_other read_identifier after_token
  word-Emits c cs start all =
      let h = start-IsOther c start in
      let (legal, going) = keyword_type-plain (c ∷ cs) in
      other-Emits c cs h (
        rw
          (
            differs c 0x22 h (omega arith),
            differs c 0x27 h (omega arith),
            no_digit c start,
            start,
            differs c 0x2f h (omega arith),
            read_chars-append is_identifier_char (c ∷ cs) 0x20 rest
                (start_in_identifier c start, all) blank_ends_identifier,
            legal,
            going,
          )
          (written refl refl refl))

  pub number-Emits :
      (c : ℕ) (cs : Str)
      → All is_digit (c ∷ cs)
      → Emits integer (c ∷ cs) rest (round_of rest line column v before (c ∷ cs))
  unfolding next_other read_number read_fraction after_token is_illegal is_eof
  number-Emits c cs (digit, all) =
      let h = digit-IsOther c digit in
      let behind = cs ++ 0x20 ∷ rest in
      let loop : read_while (suc (suc (length behind))) is_digit (c ∷ behind)
          ≡ some (c ∷ cs, 0x20 ∷ rest) =
        read_chars-append is_digit (c ∷ cs) 0x20 rest (digit, all) blank_ends_digits in
      other-Emits c cs h (
        rw
          (differs c 0x22 h (omega arith), differs c 0x27 h (omega arith), digit, read_number, loop)
          (written refl refl refl))

  pub decimal-Emits :
      (c : ℕ) (cs : Str) (d : ℕ) (ds : Str)
      → All is_digit (c ∷ cs)
      → All is_digit (d ∷ ds)
      → Emits float
          (c ∷ cs ++ 0x2e ∷ d ∷ ds)
          rest
          (round_of rest line column v before (c ∷ cs ++ 0x2e ∷ d ∷ ds))
  unfolding next_other read_number read_fraction after_token is_illegal is_eof
  decimal-Emits c cs d ds (digit, all) (digit', all') =
      let h = digit-IsOther c digit in
      let behind = cs ++ 0x2e ∷ d ∷ (ds ++ 0x20 ∷ rest) in
      let loop : read_while (suc (suc (length behind))) is_digit (c ∷ behind)
          ≡ some (c ∷ cs, 0x2e ∷ d ∷ (ds ++ 0x20 ∷ rest)) =
        read_chars-append is_digit (c ∷ cs) 0x2e (d ∷ ds ++ 0x20 ∷ rest) (digit, all)
          point_ends_digits in
      other-Emits c (cs ++ 0x2e ∷ d ∷ ds) h (
        rw
          (
            differs c 0x22 h (omega arith),
            differs c 0x27 h (omega arith),
            digit,
            append_assoc cs (0x2e ∷ d ∷ ds) (0x20 ∷ rest),
            read_number,
            loop,
            digit',
            read_chars-append is_digit (d ∷ ds) 0x20 rest (digit', all') blank_ends_digits,
          )
          (written refl refl refl))
