-- ===== src/Parser/Lexer/RoundTrip.antt =====
-- A list of words, numbers, strings and symbols that is printed with a blank behind each, and read
-- back by Tokenize.
use glyphlang.Prelude.{
  ℕ, zero, suc, ◌≤◌, ◌<◌, ◌≡◌, ◌≢◌, ◌⊎◌, inl, inr, refl, Bool, true, false, List, [], ◌∷◌, ◌++◌,
  append_assoc, map, Option, some, Result, ok, arith, length, length-append,
}
use glyphlang.Prelude.Maps.{Str}
use glyphlang.Parser.Token.{
  TokenType, Token, illegal, eof, string, integer, float, is_illegal, is_eof, find_char,
}
use glyphlang.Parser.Chars.{
  ch, is_digit, is_identifier_start, is_identifier_char, is_letter, is_blank, read_while,
  read_chars,
}
use glyphlang.Parser.Lexer.{
  Lexer, LexError, new_lexer, keyword_type, read_string, string_token, next_other, token_case,
  next_token, skip_whitespace_except_newlines, Round, after_token, round_at, add_token,
  follow_round, tokenize_from, tokenize,
}
use glyphlang.Parser.Lexer.Strings.{escape_bytes, read_string_body-escape_bytes}
use glyphlang.Parser.Lexer.Symbols.{symbol_text, Emits, written, round_of, symbol-Emits}
use glyphlang.Parser.Lexer.Printing.{All, word-Emits, number-Emits, decimal-Emits}

pub data Lexeme : Type 0 where
  symbol : TokenType → Lexeme
  word number text : Str → Lexeme
  fraction : Str → Str → Lexeme

-- A symbol has a text; a word begins as an identifier and goes on as one; a number has digits, a
-- fraction on both sides of its point.
abbrev pub IsLexeme : Lexeme → Type 0
IsLexeme (symbol t) = symbol_text t ≢ []
IsLexeme (word []) = ⊥
IsLexeme (word (c ∷ cs)) = (is_identifier_start c ≡ true) × All is_identifier_char cs
IsLexeme (number []) = ⊥
IsLexeme (number (c ∷ cs)) = All is_digit (c ∷ cs)
IsLexeme (fraction [] ds) = ⊥
IsLexeme (fraction (c ∷ cs) []) = ⊥
IsLexeme (fraction (c ∷ cs) (d ∷ ds)) = All is_digit (c ∷ cs) × All is_digit (d ∷ ds)
IsLexeme (text s) = Unit {0}

abbrev pub AllLexemes : List Lexeme → Type 0
AllLexemes [] = Unit {0}
AllLexemes (x ∷ xs) = IsLexeme x × AllLexemes xs

abbrev pub print_lexeme : Lexeme → Str
print_lexeme (symbol t) = symbol_text t
print_lexeme (word w) = w
print_lexeme (number ds) = ds
print_lexeme (fraction cs ds) = cs ++ 0x2e ∷ ds
print_lexeme (text s) = 0x22 ∷ (escape_bytes s ++ 0x22 ∷ [])

abbrev pub print : List Lexeme → Str
print [] = []
print (x ∷ xs) = print_lexeme x ++ 0x20 ∷ print xs

-- The type and the literal that a lexeme stands for, and those of a token.
abbrev pub meaning : Lexeme → TokenType × Str
meaning (symbol t) = (t, symbol_text t)
meaning (word w) = (keyword_type w, w)
meaning (number ds) = (integer, ds)
meaning (fraction cs ds) = (float, cs ++ 0x2e ∷ ds)
meaning (text s) = (string, s)

abbrev pub kind : Token → TokenType × Str
kind t = (t.type, t.literal)

module _ (rest : Str) (line column : ℕ) (v : Bool) (before : Str) where
  text-Emits :
      (s : Str) → Emits string s rest (round_of rest line column v before (print_lexeme (text s)))
  unfolding round_at next_token token_case next_other read_string string_token after_token find_char
      is_illegal is_eof
  text-Emits s =
      rw
        (
          append_assoc (escape_bytes s) (0x22 ∷ []) (0x20 ∷ rest),
          read_string_body-escape_bytes (suc (length (escape_bytes s ++ 0x22 ∷ 0x20 ∷ rest))) s
              (0x22 ∷ 0x20 ∷ rest)
              (omega (arith, length-append {0} (escape_bytes s) (0x22 ∷ 0x20 ∷ rest))) refl,
        )
        (written refl refl refl)

  lexeme-Emits :
      (x : Lexeme)
      → IsLexeme x
      → Emits (meaning x).0 (meaning x).1 rest (round_of rest line column v before (print_lexeme x))
  lexeme-Emits (symbol t) h = symbol-Emits rest line column v before t h
  lexeme-Emits (word []) h = elim h [ ]
  lexeme-Emits (word (c ∷ cs)) (start, all) = word-Emits rest line column v before c cs start all
  lexeme-Emits (number []) h = elim h [ ]
  lexeme-Emits (number (c ∷ cs)) all = number-Emits rest line column v before c cs all
  lexeme-Emits (fraction [] ds) h = elim h [ ]
  lexeme-Emits (fraction (c ∷ cs) []) h = elim h [ ]
  lexeme-Emits (fraction (c ∷ cs) (d ∷ ds)) (all, all') =
      decimal-Emits rest line column v before c cs d ds all all'
  lexeme-Emits (text s) h = text-Emits s

-- No lexeme begins with a blank.
symbol_start : (t : TokenType) → is_blank (ch (symbol_text t)) ≡ false
unfolding is_blank
symbol_start illegal = refl
symbol_start _ = refl

identifier_start : (c : ℕ) → is_identifier_start c ≡ true → is_blank c ≡ false
unfolding is_identifier_start is_letter is_blank
identifier_start c h = ground arith

digit_start : (c : ℕ) → is_digit c ≡ true → is_blank c ≡ false
unfolding is_digit is_blank
digit_start c h = ground arith

ch_append : (xs ys : Str) → xs ≢ [] → ch (xs ++ ys) ≡ ch xs
ch_append [] ys h = absurd (h refl)
ch_append (x ∷ xs) ys h = refl

lexeme_start : (x : Lexeme) (ys : Str) → IsLexeme x → is_blank (ch (print_lexeme x ++ ys)) ≡ false
unfolding is_blank
lexeme_start (symbol t) ys h = rw (ch_append (symbol_text t) ys h) (symbol_start t)
lexeme_start (word []) ys h = elim h [ ]
lexeme_start (word (c ∷ cs)) ys (start, all) = identifier_start c start
lexeme_start (number []) ys h = elim h [ ]
lexeme_start (number (c ∷ cs)) ys (digit, all) = digit_start c digit
lexeme_start (fraction [] ds) ys h = elim h [ ]
lexeme_start (fraction (c ∷ cs) []) ys h = elim h [ ]
lexeme_start (fraction (c ∷ cs) (d ∷ ds)) ys ((digit, all), all') = digit_start c digit
lexeme_start (text s) ys h = refl

print_start : (xs : List Lexeme) → AllLexemes xs → is_blank (ch (print xs)) ≡ false
unfolding is_blank
print_start [] all = refl
print_start (x ∷ xs) (one, all) = lexeme_start x (0x20 ∷ print xs) one

none_read : (test : ℕ → Bool) (cs : Str) → test (ch cs) ≡ false → read_chars test cs ≡ some ([], cs)
unfolding read_while
none_read test cs h = rw h refl

-- The lexer stands at the print of lexemes, or at a blank before it.
abbrev StandsAt : List Lexeme → Lexer → Type 0
StandsAt xs l = (l.rest ≡ print xs) ⊎ (l.rest ≡ 0x20 ∷ print xs)

skipped :
    (xs : List Lexeme) (l : Lexer)
    → AllLexemes xs
    → StandsAt xs l
    → (blanks : Str) × (read_chars is_blank l.rest ≡ some (blanks, print xs))
unfolding read_while is_blank
skipped xs l all (inl e) = ([], rw e (none_read is_blank (print xs) (print_start xs all)))
skipped xs l all (inr e) =
    (0x20 ∷ [], rw (e, none_read is_blank (print xs) (print_start xs all)) refl)

-- The tokens are those of the lexemes, and EOF.
pub record Reads (xs : List Lexeme) (m : Option (Result LexError (List Token))) : Type 0 where
  pub tokens : List Token
  pub result : m ≡ some (ok tokens)
  pub same : map kind tokens ≡ map meaning xs ++ (eof, []) ∷ []

emitted-Reads :
    (fuel : ℕ) (x : Lexeme) (xs : List Lexeme) {round : Round}
    → Emits (meaning x).0 (meaning x).1 (print xs) round
    → ((l : Lexer) → StandsAt xs l → Reads xs (tokenize_from fuel l))
    → Reads (x ∷ xs) (follow_round (tokenize_from fuel) round)
unfolding follow_round add_token
emitted-Reads fuel x xs (written {token = t} {later} type literal remains) next =
    let r = next later (inr remains) in
    record {
      tokens = t ∷ r.tokens;
      result = rw (r.result) refl;
      same = rw (type, literal, r.same) refl;
    }

tokenize_from-Reads :
    (fuel : ℕ) (xs : List Lexeme) (l : Lexer)
    → AllLexemes xs
    → length xs < fuel
    → StandsAt xs l
    → Reads xs (tokenize_from fuel l)
unfolding tokenize_from skip_whitespace_except_newlines round_at follow_round
tokenize_from-Reads zero xs l all fits stands = absurd (omega arith)
tokenize_from-Reads (suc fuel) [] l all fits stands =
    rw ((skipped [] l all stands).1, tokenize_from)
      (record { tokens = _; result = refl; same = refl })
tokenize_from-Reads (suc fuel) (x ∷ xs) l (one, all) fits stands =
    rw ((skipped (x ∷ xs) l (one, all) stands).1, tokenize_from)
      (emitted-Reads fuel x xs
        (lexeme-Emits (print xs) l.line _ l.last_token_was_value l.last_token_literal x one)
        (λ l₁. tokenize_from-Reads fuel xs l₁ all (omega arith)))

length-print : (xs : List Lexeme) → length xs ≤ length (print xs)
length-print [] = omega arith
length-print (x ∷ xs) =
    omega (arith, length-print xs, length-append (print_lexeme x) (0x20 ∷ print xs))

-- Symbols, words, numbers, decimals and strings that are printed, the strings between double quotes
-- and with escapes, each with a blank behind it: Tokenize reads them back, with their types and
-- literals in their order, and EOF behind them.
pub tokenize-print : (xs : List Lexeme) → AllLexemes xs → Reads xs (tokenize (print xs))
unfolding tokenize new_lexer
tokenize-print xs all =
    tokenize_from-Reads (suc (length (print xs))) xs (new_lexer (print xs)) all
      (omega (arith, length-print xs)) (inl refl)
