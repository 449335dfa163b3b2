-- ===== src/Parser/Lexer/Symbols.antt =====
-- Symbols that are printed with a blank behind them, and read again.
use glyphlang.Prelude.{ℕ, ◌≡◌, ◌≢◌, refl, Bool, not, ◌||◌, [], ◌∷◌, ◌++◌, Bool-cases, inl, inr}
use glyphlang.Prelude.Maps.{Str, bytes_of, str_eq}
use glyphlang.Parser.Token.{
  TokenType, Token, is_illegal, is_eof, find_char, at, colon, dollar, plus, minus, star, slash,
  percent, greater, greater_eq, less, less_eq, bang, not_eq, eq_eq, question, tilde, ampersand, and,
  or, lparen, rparen, lbrace, rbrace, lbracket, rbracket, comma, dot, arrow, pipe, pipe_op, equals,
  fatarrow, dotdotdot,
}
use glyphlang.Parser.Chars.{is_letter}
use glyphlang.Parser.Lexer.{
  Lexer, next_slash, next_dot, next_leading, leading_case, token_case, next_token, Round, emits,
  after_token, round_at,
}

-- The text of a symbol; the other types have none.
abbrev pub symbol_text : TokenType → Str
symbol_text at = bytes_of "@"
symbol_text colon = bytes_of ":"
symbol_text dollar = bytes_of "$"
symbol_text plus = bytes_of "+"
symbol_text minus = bytes_of "-"
symbol_text star = bytes_of "*"
symbol_text slash = bytes_of "/"
symbol_text percent = bytes_of "%"
symbol_text greater = bytes_of ">"
symbol_text greater_eq = bytes_of ">="
symbol_text less = bytes_of "<"
symbol_text less_eq = bytes_of "<="
symbol_text bang = bytes_of "!"
symbol_text not_eq = bytes_of "!="
symbol_text eq_eq = bytes_of "=="
symbol_text question = bytes_of "?"
symbol_text tilde = bytes_of "~"
symbol_text ampersand = bytes_of "&"
symbol_text and = bytes_of "&&"
symbol_text or = bytes_of "||"
symbol_text lparen = bytes_of "("
symbol_text rparen = bytes_of ")"
symbol_text lbrace = bytes_of "{"
symbol_text rbrace = bytes_of "}"
symbol_text lbracket = bytes_of "["
symbol_text rbracket = bytes_of "]"
symbol_text comma = bytes_of ","
symbol_text dot = bytes_of "."
symbol_text arrow = bytes_of "->"
symbol_text pipe = bytes_of "|"
symbol_text pipe_op = bytes_of "|>"
symbol_text equals = bytes_of "="
symbol_text fatarrow = bytes_of "=>"
symbol_text dotdotdot = bytes_of "..."
symbol_text _ = []

-- A lexer, field by field.
abbrev pub lexer_at : Str → ℕ → ℕ → Bool → Str → Lexer
lexer_at rest line column v literal = record {
  rest = rest;
  line = line;
  column = column;
  last_token_was_value = v;
  last_token_literal = literal;
}

-- The round at a text with a blank behind it emits a token of the type with the literal, and stops
-- before the blank.
pub data Emits (t : TokenType) (literal rest : Str) : Round → Type 0 where
  written :
      {token : Token} {later : Lexer}
      → token.type ≡ t
      → token.literal ≡ literal
      → later.rest ≡ 0x20 ∷ rest
      → Emits t literal rest (emits token later)

module _ (rest : Str) (line column : ℕ) (v : Bool) (before : Str) where
  abbrev pub round_of : Str → Round
  round_of text = round_at (lexer_at (text ++ 0x20 ∷ rest) line column v before)

  slash-Emits : Emits slash (bytes_of "/") rest (round_of (bytes_of "/"))
  unfolding round_at next_token token_case after_token next_slash find_char is_illegal is_eof
      is_letter
  slash-Emits = elim (Bool-cases (str_eq before (bytes_of "route") || not v)) [
    | inl e ↦ rw (e, after_token) (written refl refl refl)
    | inr e ↦ rw (e, after_token) (written refl refl refl)
  ]

  pub symbol-Emits :
      (t : TokenType) → symbol_text t ≢ [] → Emits t (symbol_text t) rest (round_of (symbol_text t))
  unfolding round_at next_token token_case after_token next_leading leading_case next_dot find_char
      is_illegal is_eof
  symbol-Emits at some_text = written refl refl refl
  symbol-Emits colon some_text = written refl refl refl
  symbol-Emits dollar some_text = written refl refl refl
  symbol-Emits plus some_text = written refl refl refl
  symbol-Emits minus some_text = written refl refl refl
  symbol-Emits star some_text = written refl refl refl
  symbol-Emits slash some_text = slash-Emits
  symbol-Emits percent some_text = written refl refl refl
  symbol-Emits greater some_text = written refl refl refl
  symbol-Emits greater_eq some_text = written refl refl refl
  symbol-Emits less some_text = written refl refl refl
  symbol-Emits less_eq some_text = written refl refl refl
  symbol-Emits bang some_text = written refl refl refl
  symbol-Emits not_eq some_text = written refl refl refl
  symbol-Emits eq_eq some_text = written refl refl refl
  symbol-Emits question some_text = written refl refl refl
  symbol-Emits tilde some_text = written refl refl refl
  symbol-Emits ampersand some_text = written refl refl refl
  symbol-Emits and some_text = written refl refl refl
  symbol-Emits or some_text = written refl refl refl
  symbol-Emits lparen some_text = written refl refl refl
  symbol-Emits rparen some_text = written refl refl refl
  symbol-Emits lbrace some_text = written refl refl refl
  symbol-Emits rbrace some_text = written refl refl refl
  symbol-Emits lbracket some_text = written refl refl refl
  symbol-Emits rbracket some_text = written refl refl refl
  symbol-Emits comma some_text = written refl refl refl
  symbol-Emits dot some_text = written refl refl refl
  symbol-Emits arrow some_text = written refl refl refl
  symbol-Emits pipe some_text = written refl refl refl
  symbol-Emits pipe_op some_text = written refl refl refl
  symbol-Emits equals some_text = written refl refl refl
  symbol-Emits fatarrow some_text = written refl refl refl
  symbol-Emits dotdotdot some_text = written refl refl refl
  symbol-Emits _ some_text = absurd (some_text refl)
