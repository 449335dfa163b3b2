-- ===== src/Parser/Token.antt =====
-- pkg/parser/token.go: the types of tokens, and tokens; with the tables by which pkg/parser/lexer.go
-- finds the type.
use glyphlang.Prelude.{ℕ, Bool, true, false, List, [], ◌∷◌, Option, some, none, ◌==◌, if◌then◌else◌}
use glyphlang.Prelude.Maps.{Str, bytes_of}

pub data TokenType : Type 0 where
  illegal eof newline : TokenType
  at colon dollar plus minus star slash percent : TokenType
  greater greater_eq less less_eq bang not_eq eq_eq question tilde ampersand and or : TokenType
  lparen rparen lbrace rbrace lbracket rbracket comma dot arrow pipe pipe_op equals : TokenType
  ident string integer float true_token false_token null_token while_token : TokenType
  switch case default for_token in_token macro quote match_token when fatarrow dotdotdot : TokenType
  async await import from as_token module_token const test assert break continue try : TokenType

pub record Token : Type 0 where
  pub type : TokenType
  pub literal : Str
  pub line : ℕ
  pub column : ℕ

unfoldable pub is_illegal : TokenType → Bool
is_illegal illegal = true
is_illegal _ = false

unfoldable pub is_eof : TokenType → Bool
is_eof eof = true
is_eof _ = false

-- The types behind which a slash divides.
unfoldable pub is_value : TokenType → Bool
is_value ident = true
is_value integer = true
is_value float = true
is_value string = true
is_value rparen = true
is_value rbracket = true
is_value true_token = true
is_value false_token = true
is_value _ = false

-- The type under a character, or a pair of characters.
unfoldable pub find_char : ℕ → List (ℕ × TokenType) → Option TokenType
find_char c [] = none
find_char c ((key, t) ∷ rest) = if c == key then some t else find_char c rest

-- The cases of nextToken for a character that is a token in every context.
abbrev pub single_chars : List (ℕ × TokenType)
single_chars =
    (0x40, at)
    ∷ (0x3a, colon)
    ∷ (0x24, dollar)
    ∷ (0x2b, plus)
    ∷ (0x2a, star)
    ∷ (0x25, percent)
    ∷ (0x7e, tilde)
    ∷ (0x28, lparen)
    ∷ (0x29, rparen)
    ∷ (0x7b, lbrace)
    ∷ (0x7d, rbrace)
    ∷ (0x5b, lbracket)
    ∷ (0x5d, rbracket)
    ∷ (0x2c, comma)
    ∷ (0x3f, question)
    ∷ []

-- The cases for a character that is a token unless the next one makes a longer token of it.
abbrev pub leading_chars : List (ℕ × TokenType)
leading_chars =
    (0x3e, greater)
    ∷ (0x3c, less)
    ∷ (0x21, bang)
    ∷ (0x26, ampersand)
    ∷ (0x7c, pipe)
    ∷ (0x3d, equals)
    ∷ (0x2d, minus)
    ∷ []

-- The longer tokens, by the first character.
abbrev pub following_chars : TokenType → List (ℕ × TokenType)
following_chars greater = (0x3d, greater_eq) ∷ []
following_chars less = (0x3d, less_eq) ∷ []
following_chars bang = (0x3d, not_eq) ∷ []
following_chars ampersand = (0x26, and) ∷ []
following_chars pipe = (0x7c, or) ∷ (0x3e, pipe_op) ∷ []
following_chars equals = (0x3d, eq_eq) ∷ (0x3e, fatarrow) ∷ []
following_chars minus = (0x3e, arrow) ∷ []
following_chars _ = []

-- The switch of readIdentifier.
abbrev pub keywords : List (Str × TokenType)
keywords =
    (bytes_of "true", true_token)
    ∷ (bytes_of "false", false_token)
    ∷ (bytes_of "null", null_token)
    ∷ (bytes_of "while", while_token)
    ∷ (bytes_of "switch", switch)
    ∷ (bytes_of "case", case)
    ∷ (bytes_of "default", default)
    ∷ (bytes_of "for", for_token)
    ∷ (bytes_of "in", in_token)
    ∷ (bytes_of "macro", macro)
    ∷ (bytes_of "quote", quote)
    ∷ (bytes_of "match", match_token)
    ∷ (bytes_of "when", when)
    ∷ (bytes_of "async", async)
    ∷ (bytes_of "await", await)
    ∷ (bytes_of "import", import)
    ∷ (bytes_of "from", from)
    ∷ (bytes_of "as", as_token)
    ∷ (bytes_of "module", module_token)
    ∷ (bytes_of "const", const)
    ∷ (bytes_of "assert", assert)
    ∷ (bytes_of "break", break)
    ∷ (bytes_of "continue", continue)
    ∷ (bytes_of "try", try)
    ∷ []
