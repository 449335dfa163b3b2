-- ===== src/Parser/Lexer/Tokens.antt =====
-- nextToken ends, and reads a character at least, unless its token is ILLEGAL or EOF.
use glyphlang.Prelude.{
  ℕ, suc, ◌++◌, ◌<◌, ◌≡◌, refl, Bool, true, false, not, ◌&&◌, ◌||◌, [], ◌∷◌, Option, some, none,
  ◌==◌, arith, length, length-drop, drop, get_or, Bool-cases, inl, inr,
}
use glyphlang.Prelude.Maps.{Str, str_eq, bytes_of}
use mathlib.Core.Option
use glyphlang.Parser.Token.{
  TokenType, eof, float, slash, dot, dotdotdot, string, is_eof, find_char, single_chars,
  leading_chars, following_chars,
}
use glyphlang.Parser.Chars.{
  ch, peek_char, is_letter, is_digit, is_identifier_start, is_identifier_char, is_path_char,
  Reading,
}
use glyphlang.Parser.Lexer.{
  Lexer, reach, token_at, keyword_type, read_identifier, read_fraction, read_number, read_string,
  next_slash, next_dot, next_leading, next_other, next_token, string_token, leading_case,
  token_case,
}
use glyphlang.Parser.Lexer.Escapes.{
  Within, read, failed, Bounded, bounded, read_string_body-Bounded,
}
use glyphlang.Parser.Lexer.Progress.{
  Advances, Given, given, IsRead, is_read, read_chars-IsRead, ch_behind, shorter_drop, taken,
  refused, reach-rest, refused_here, either, if-Given, zero_no_digit, zero_no_identifier,
  zero_no_path, slash_in_path, start_in_identifier,
}

module _ (l : Lexer) where
  read_token :
      {test : ℕ → Bool} (t : Str → TokenType) (literal : Str → Str) {m : Option (Str × Str)}
      → IsRead test l.rest m
      → test (ch l.rest) ≡ true
      → Given l (Option.map (λ r. (token_at l (t r.0) (literal r.0), reach r.1 l)) m)
  read_token t literal (is_read le less) holds = given (taken _ _ _ l (less holds))

  -- At a slash, or at a character of an identifier.
  read_identifier-Given :
      ((ch l.rest == 0x2f) ≡ false → is_identifier_char (ch l.rest) ≡ true)
      → Given l (read_identifier l)
  unfolding read_identifier
  read_identifier-Given start = elim (Bool-cases (ch l.rest == 0x2f)) [
    | inl e ↦ rw e (
        read_token keyword_type (λ word. word) (read_chars-IsRead is_path_char l.rest zero_no_path)
          (slash_in_path (ch l.rest) e))
    | inr e ↦ rw e (
        read_token keyword_type (λ word. word)
          (read_chars-IsRead is_identifier_char l.rest zero_no_identifier) (start e))
  ]

  fraction-Given :
      {test : ℕ → Bool} (digits from : Str) {m : Option (Str × Str)}
      → length from < length l.rest
      → IsRead test from m
      → Given l (
          Option.map
            (λ fraction. (token_at l float (digits ++ 0x2e ∷ fraction.0), reach fraction.1 l))
            m)
  fraction-Given digits from shorter (is_read le less) = given (taken _ _ _ l (omega arith))

  read_fraction-Given :
      (digits : Str × Str) → length digits.1 < length l.rest → Given l (read_fraction digits l)
  unfolding read_fraction
  read_fraction-Given digits less =
      if-Given (ch digits.1 == 0x2e && is_digit (peek_char digits.1))
        (λ e.
          fraction-Given digits.0 (drop 1 digits.1) (omega (arith, length-drop 1 digits.1))
            (read_chars-IsRead is_digit (drop 1 digits.1) zero_no_digit))
        (λ e. given (taken _ _ _ l less))

  read_number-Given : is_digit (ch l.rest) ≡ true → Given l (read_number l)
  unfolding read_number
  read_number-Given digit = go (read_chars-IsRead is_digit l.rest zero_no_digit)
    where
      go :
          {m : Option (Str × Str)}
          → IsRead is_digit l.rest m
          → Given l (elim m [ none ↦ none | some digits ↦ read_fraction digits l ])
      go (is_read {r = r} le less) = read_fraction-Given r (less digit)

module _ (l : Lexer) where
  string_token-Advances :
      (quote : ℕ) {r : Reading}
      → 0 < length l.rest
      → Within (length (drop 1 l.rest)) r
      → Advances l (string_token quote r l)
  unfolding string_token
  string_token-Advances quote some_char (read {bytes = bytes} {rest} w) =
      either (ch rest == quote)
        (λ e.
          taken string bytes (drop 1 rest) l
            (omega (arith, length-drop 1 rest, length-drop 1 l.rest)))
        (λ e. refused _ rest l)
  string_token-Advances quote some_char (failed {message = message} {rest}) = refused message rest l

  read_string-Given : 0 < length l.rest → Given l (read_string l)
  unfolding read_string
  read_string-Given some_char = go (
      read_string_body-Bounded (suc (length (drop 1 l.rest))) (ch l.rest) (drop 1 l.rest)
        (omega arith))
    where
      go :
          {m : Option Reading}
          → Bounded (length (drop 1 l.rest)) m
          → Given l (Option.map (λ r. string_token (ch l.rest) r l) m)
      go (bounded w) = given (string_token-Advances (ch l.rest) some_char w)

  next_slash-Given : (ch l.rest == 0x2f) ≡ true → 0 < length l.rest → Given l (next_slash l)
  unfolding next_slash
  next_slash-Given e some_char =
      if-Given
        ((str_eq l.last_token_literal (bytes_of "route") || not l.last_token_was_value)
          && is_letter (peek_char l.rest))
        (λ path. read_identifier-Given l (λ other. cc))
        (λ other. given (
          taken slash (0x2f ∷ []) (drop 1 l.rest) l
            (shorter_drop 1 l.rest some_char (omega arith))))

  next_dot-Advances : 0 < length l.rest → Advances l (next_dot l)
  unfolding next_dot
  next_dot-Advances some_char =
      either (peek_char l.rest == 0x2e && get_or l.rest 2 0 == 0x2e)
        (λ e. taken dotdotdot _ _ l (shorter_drop 3 l.rest some_char (omega arith)))
        (λ e. taken dot _ _ l (shorter_drop 1 l.rest some_char (omega arith)))

  leading_case-Advances :
      (o : Option TokenType) (t : TokenType) → 0 < length l.rest → Advances l (leading_case o t l)
  unfolding leading_case
  leading_case-Advances (some longer) t some_char =
      taken longer _ _ l (shorter_drop 2 l.rest some_char (omega arith))
  leading_case-Advances none t some_char =
      taken t _ _ l (shorter_drop 1 l.rest some_char (omega arith))

  next_other-Given : 0 < length l.rest → Given l (next_other l)
  unfolding next_other
  next_other-Given some_char =
      if-Given (ch l.rest == 0x22 || ch l.rest == 0x27) (λ e. read_string-Given some_char)
        (λ e. if-Given (is_digit (ch l.rest)) (read_number-Given l) (λ e₁.
          if-Given (is_identifier_start (ch l.rest))
            (λ start. read_identifier-Given l (λ other. start_in_identifier (ch l.rest) start))
            (λ e₂. given (refused_here _ l))))

  token_case-Given :
      (single leading : Option TokenType)
      → 0 < length l.rest
      → Given l (token_case single leading l)
  unfolding token_case next_leading
  token_case-Given (some t) leading some_char =
      given (taken t _ _ l (shorter_drop 1 l.rest some_char (omega arith)))
  token_case-Given none (some t) some_char =
      if-Given (ch l.rest == 0x2f) (λ e. next_slash-Given e some_char)
        (λ e.
          if-Given (ch l.rest == 0x2e) (λ e₁. given (next_dot-Advances some_char))
            (λ e₁. given (
              leading_case-Advances (find_char (peek_char l.rest) (following_chars t)) t
                some_char)))
  token_case-Given none none some_char =
      if-Given (ch l.rest == 0x2f) (λ e. next_slash-Given e some_char)
        (λ e.
          if-Given (ch l.rest == 0x2e) (λ e₁. given (next_dot-Advances some_char))
            (λ e₁. next_other-Given some_char))

  at_end : Advances l (token_at l eof [], l)
  unfolding is_eof
  at_end = record {
    line = refl;
    column = refl;
    to = l.rest;
    reached = reach-rest l;
    shorter = λ legal more. cc;
  }

  -- nextToken ends, gives a token at the place of the lexer, and reads a character at least, unless
  -- the token is ILLEGAL or EOF.
  pub next_token-Given : Given l (next_token l)
  unfolding next_token
  next_token-Given =
      if-Given (ch l.rest == 0) (λ e. given at_end)
        (λ e.
          token_case-Given (find_char (ch l.rest) single_chars)
            (find_char (ch l.rest) leading_chars) (ch_behind l.rest e))
