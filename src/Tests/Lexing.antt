-- ===== src/Tests/Lexing.antt =====
-- The lexer at concrete inputs.
use glyphlang.Prelude.{ℕ, ◌≡◌, refl, List, [], ◌∷◌, some, Result, ok, err}
use glyphlang.Prelude.Maps.{Str, bytes_of, str_eq, lookup}
use glyphlang.Parser.Token.{
  TokenType, Token, ident, equals, float, eof, newline, greater_eq, is_illegal, is_eof, is_value,
  find_char,
}
use glyphlang.Parser.Chars.{
  is_letter, is_digit, is_identifier_start, is_identifier_char, is_path_char, is_blank, read_while,
}
use glyphlang.Parser.Lexer.{
  LexError, unterminated_string, new_lexer, skip_whitespace_except_newlines, keyword_type,
  read_identifier, read_number, read_fraction, next_slash, next_leading, leading_case, next_other,
  token_case, next_token, after_token, round_at, add_token, follow_round, tokenize_from, tokenize,
}
use glyphlang.Parser.Lexer.Whole.{IsWhole, IsOrdered, tokenize-terminates, tokenize-IsWhole}
use glyphlang.Parser.Lexer.Strings.{escape_bytes, escape_byte}
use glyphlang.Parser.Lexer.Errors.{tokenize-unterminated_string}
use glyphlang.Parser.Lexer.RoundTrip.{
  Lexeme, symbol, word, number, fraction, text, print, Reads, tokenize-print,
}

-- p = /u/:id, and on the next line >= 1.5
abbrev source : Str
source = bytes_of "p = /u/:id\n>= 1.5"

abbrev token : TokenType → Str → ℕ → ℕ → Token
token t literal line column = record { type = t; literal = literal; line = line; column = column }

abbrev tokens : List Token
tokens =
    token ident (bytes_of "p") 1 1
    ∷ token equals (bytes_of "=") 1 3
    ∷ token ident (bytes_of "/u/:id") 1 5
    ∷ token newline [] 1 11
    ∷ token greater_eq (bytes_of ">=") 2 1
    ∷ token float (bytes_of "1.5") 2 4
    ∷ token eof [] 2 7
    ∷ []

tokenizes : tokenize source ≡ some (ok tokens)
unfolding tokenize tokenize_from follow_round add_token round_at after_token next_token token_case
    next_other next_leading leading_case next_slash read_number read_fraction read_identifier
    keyword_type lookup skip_whitespace_except_newlines new_lexer read_while is_blank is_path_char
    is_identifier_char is_identifier_start is_digit is_letter find_char is_value is_eof is_illegal
    str_eq
tokenizes = refl

tokenize-terminates_example :
    (r : Result LexError (List Token)) × (tokenize (bytes_of "\"a") ≡ some r)
tokenize-terminates_example = tokenize-terminates (bytes_of "\"a")

tokenize-IsWhole_example : IsWhole tokens × IsOrdered 1 1 tokens
tokenize-IsWhole_example = tokenize-IsWhole source tokens tokenizes

-- x >= 1.5 "a\"\n"
abbrev lexemes : List Lexeme
lexemes =
    word (bytes_of "x1")
    ∷ symbol greater_eq
    ∷ fraction (bytes_of "1") (bytes_of "5")
    ∷ text (bytes_of "a\"\n")
    ∷ number (bytes_of "27")
    ∷ []

tokenize-print_example : Reads lexemes (tokenize (print lexemes))
unfolding is_digit is_identifier_start is_identifier_char is_letter
tokenize-print_example =
    tokenize-print lexemes
      ((refl, (refl, tt)), ((λ e. cc), (((refl, tt), (refl, tt)), (tt, ((refl, (refl, tt)), tt)))))

tokenize-unterminated_string_example :
    tokenize (bytes_of "\"a\\\"b\nx") ≡ some (err (unterminated_string 1 1 0x22))
unfolding escape_bytes escape_byte
tokenize-unterminated_string_example =
    tokenize-unterminated_string (bytes_of "a\"b") (bytes_of "\nx") refl refl
