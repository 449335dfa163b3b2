-- ===== src/Parser/Lexer.antt =====
-- pkg/parser/lexer.go: the lexer. A state has the input from the current character on: this
-- character is the first one of the rest, or 0 at the end, and a slice of the input is what a loop
-- has read. After the call in NewLexer, readChar is only called before the end, where it drops one
-- character of the rest and adds one to the column.
pub mod Escapes
pub mod Progress
pub mod Tokens
pub mod Whole
pub mod Strings
pub mod Symbols
pub mod Printing
pub mod RoundTrip
pub mod Errors
use glyphlang.Prelude.{
  ℕ, zero, suc, ◌+◌, ◌-◌, Bool, false, not, ◌&&◌, ◌||◌, List, [], ◌∷◌, ◌++◌, Option, some, none,
  Result, ok, err, ◌==◌, if◌then◌else◌, length, get_or, drop, take,
}
use glyphlang.Prelude.Maps.{Str, bytes_of, str_eq, lookup}
use mathlib.Core.Option
use glyphlang.Parser.Chars.{
  Reading, ch, peek_char, is_letter, is_digit, is_identifier_start, is_identifier_char,
  is_path_char, read_chars, is_blank, write_rune, reads, fails, read_string_body,
}
use glyphlang.Parser.Token.{
  TokenType, illegal, eof, newline, slash, dot, dotdotdot, ident, string, integer, float, Token,
  is_illegal, is_eof, is_value, find_char, single_chars, leading_chars, following_chars, keywords,
}

pub record Lexer : Type 0 where
  pub rest : Str
  pub line : ℕ
  pub column : ℕ
  pub last_token_was_value : Bool
  pub last_token_literal : Str

-- LexError: an unterminated string with its quote, or a character that begins no token.
pub data LexError : Type 0 where
  unterminated_string : ℕ → ℕ → ℕ → LexError
  invalid_character : ℕ → ℕ → ℕ → LexError

-- NewLexer
unfoldable pub new_lexer : Str → Lexer
new_lexer input = record {
  rest = input;
  line = 1;
  column = 1;
  last_token_was_value = false;
  last_token_literal = [];
}

-- The lexer after as many calls of readChar as lead to `rest`.
abbrev pub reach : Str → Lexer → Lexer
reach rest l = record l { rest = rest; column = l.column + (length l.rest - length rest) }

-- skipWhitespaceExceptNewlines
unfoldable pub skip_whitespace_except_newlines : Lexer → Option Lexer
skip_whitespace_except_newlines l = Option.map (λ r. reach r.1 l) (read_chars is_blank l.rest)

-- skipComment
unfoldable pub skip_comment : Lexer → Option Lexer
skip_comment l =
    Option.map (λ r. reach r.1 l) (read_chars (λ c. not (c == 0x0a) && not (c == 0)) l.rest)

-- A token at the lexer's place.
abbrev pub token_at : Lexer → TokenType → Str → Token
token_at l t literal = record { type = t; literal = literal; line = l.line; column = l.column }

unfoldable pub keyword_type : Str → TokenType
keyword_type word = elim (lookup word keywords) [ some t ↦ t | none ↦ ident ]

-- readIdentifier
unfoldable pub read_identifier : Lexer → Option (Token × Lexer)
read_identifier l =
    Option.map (λ r. (token_at l (keyword_type r.0) r.0, reach r.1 l))
      (if ch l.rest == 0x2f
        then read_chars is_path_char l.rest
        else read_chars is_identifier_char l.rest)

-- readNumber behind its first loop.
unfoldable pub read_fraction : Str × Str → Lexer → Option (Token × Lexer)
read_fraction digits l =
    if ch digits.1 == 0x2e && is_digit (peek_char digits.1)
    then Option.map
        (λ fraction. (token_at l float (digits.0 ++ 0x2e ∷ fraction.0), reach fraction.1 l))
        (read_chars is_digit (drop 1 digits.1))
    else some (token_at l integer digits.0, reach digits.1 l)

-- readNumber
unfoldable pub read_number : Lexer → Option (Token × Lexer)
unfolding read_fraction
read_number l = elim (read_chars is_digit l.rest) [
  | none ↦ none
  | some digits ↦ read_fraction digits l
]

abbrev pub unterminated_prefix : Str
unterminated_prefix = bytes_of "unterminated_string:"

-- readString behind its loop.
unfoldable pub string_token : ℕ → Reading → Lexer → Token × Lexer
string_token quote (fails message rest) l = (token_at l illegal message, reach rest l)
string_token quote (reads bytes rest) l =
    if ch rest == quote
    then (token_at l string bytes, reach (drop 1 rest) l)
    else (token_at l illegal (unterminated_prefix ++ quote ∷ []), reach rest l)

-- readString
unfoldable pub read_string : Lexer → Option (Token × Lexer)
unfolding string_token
read_string l =
    let quote = ch l.rest in
    let body = drop 1 l.rest in
    Option.map (λ r. string_token quote r l) (read_string_body (suc (length body)) quote body)

-- A token of the first `n` characters.
abbrev pub take_token : TokenType → Str → ℕ → Lexer → Token × Lexer
take_token t literal n l = (token_at l t literal, reach (drop n l.rest) l)

-- The cases of '/', '.' and of a character that may begin a longer token, in nextToken.
unfoldable pub next_slash : Lexer → Option (Token × Lexer)
next_slash l =
    let is_path_context =
      str_eq l.last_token_literal (bytes_of "route") || not l.last_token_was_value in
    if is_path_context && is_letter (peek_char l.rest)
    then read_identifier l
    else some (take_token slash (0x2f ∷ []) 1 l)

unfoldable pub next_dot : Lexer → Token × Lexer
next_dot l =
    if peek_char l.rest == 0x2e && get_or l.rest 2 0 == 0x2e
    then take_token dotdotdot (0x2e ∷ 0x2e ∷ 0x2e ∷ []) 3 l
    else take_token dot (0x2e ∷ []) 1 l

unfoldable pub leading_case : Option TokenType → TokenType → Lexer → Token × Lexer
leading_case (some longer) t l = take_token longer (ch l.rest ∷ peek_char l.rest ∷ []) 2 l
leading_case none t l = take_token t (ch l.rest ∷ []) 1 l

unfoldable pub next_leading : TokenType → Lexer → Token × Lexer
unfolding leading_case
next_leading t l = leading_case (find_char (peek_char l.rest) (following_chars t)) t l

-- The last cases of nextToken.
unfoldable pub next_other : Lexer → Option (Token × Lexer)
next_other l =
    let c = ch l.rest in
    if c == 0x22 || c == 0x27
    then read_string l
    else if is_digit c
    then read_number l
    else if is_identifier_start c
    then read_identifier l
    else some (token_at l illegal (write_rune c), l)

-- The cases of nextToken by the tables, and the others.
unfoldable pub token_case : Option TokenType → Option TokenType → Lexer → Option (Token × Lexer)
token_case (some t) leading l = some (take_token t (ch l.rest ∷ []) 1 l)
token_case none leading l =
    if ch l.rest == 0x2f
    then next_slash l
    else if ch l.rest == 0x2e
    then some (next_dot l)
    else elim leading [ some t ↦ some (next_leading t l) | none ↦ next_other l ]

-- nextToken
unfoldable pub next_token : Lexer → Option (Token × Lexer)
unfolding token_case
next_token l =
    if ch l.rest == 0
    then some (token_at l eof [], l)
    else token_case (find_char (ch l.rest) single_chars) (find_char (ch l.rest) leading_chars) l

-- The lexer behind a newline.
abbrev pub next_line : Lexer → Lexer
next_line l = record {
  rest = drop 1 l.rest;
  line = l.line + 1;
  column = 1;
  last_token_was_value = false;
  last_token_literal = [];
}

-- The error of an ILLEGAL token, before which the lexer was `l`.
unfoldable pub lex_error : Token → Lexer → LexError
lex_error t l =
    if str_eq (take (length unterminated_prefix) t.literal) unterminated_prefix
    then unterminated_string t.line t.column (get_or t.literal (length unterminated_prefix) 0)
    else invalid_character l.line l.column (ch l.rest)

-- What a round of the loop of Tokenize does. It hangs where a loop inside it does not end.
pub data Round : Type 0 where
  stops : List Token → Round
  rejects : LexError → Round
  skips : Lexer → Round
  emits : Token → Lexer → Round
  hangs : Round

unfoldable pub after_token : Option (Token × Lexer) → Round
after_token none = hangs
after_token (some (t, l)) =
    if is_illegal t.type
    then rejects (lex_error t l)
    else if is_eof t.type
    then stops (t ∷ [])
    else emits t
        (record l { last_token_was_value = is_value t.type; last_token_literal = t.literal })

-- The round behind the whitespace. Where the loop ends at a 0, the EOF token is added.
unfoldable pub round_at : Lexer → Round
round_at l =
    let c = ch l.rest in
    if c == 0
    then stops (token_at l eof [] ∷ [])
    else if c == 0x0a
    then emits (token_at l newline []) (next_line l)
    else if c == 0x23 || (c == 0x2f && peek_char l.rest == 0x2f)
    then elim (skip_comment l) [ none ↦ hangs | some l₁ ↦ skips l₁ ]
    else after_token (next_token l)

unfoldable pub add_token :
    Token → Option (Result LexError (List Token)) → Option (Result LexError (List Token))
add_token t (some (ok ts)) = some (ok (t ∷ ts))
add_token t (some (err e)) = some (err e)
add_token t none = none

-- The loop after a round: `rest` is the next one.
unfoldable pub follow_round :
    (Lexer → Option (Result LexError (List Token))) → Round → Option (Result LexError (List Token))
unfolding add_token
follow_round rest (stops ts) = some (ok ts)
follow_round rest (rejects e) = some (err e)
follow_round rest (skips l) = rest l
follow_round rest (emits t l) = add_token t (rest l)
follow_round rest hangs = none

-- The loop of Tokenize; `none` where its fuel ran out, or that of a loop inside a round.
unfoldable pub tokenize_from : ℕ → Lexer → Option (Result LexError (List Token))
tokenize_from zero l = none
tokenize_from (suc fuel) l = elim (skip_whitespace_except_newlines l) [
  | none ↦ none
  | some l₁ ↦ follow_round (tokenize_from fuel) (round_at l₁)
]

-- Tokenize: each round but the last reads a character at least.
unfoldable pub tokenize : Str → Option (Result LexError (List Token))
tokenize input = tokenize_from (suc (length input)) (new_lexer input)
