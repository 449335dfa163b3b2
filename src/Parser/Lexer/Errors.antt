-- ===== src/Parser/Lexer/Errors.antt =====
-- Tokenize on a string that is not closed.
use glyphlang.Prelude.{
  suc, ◌+◌, ◌-◌, ◌≡◌, refl, true, some, err, ◌∷◌, ◌++◌, ◌==◌, false, arith, length, length-append,
}
use glyphlang.Prelude.Maps.{Str, str_eq}
use glyphlang.Parser.Token.{is_illegal, find_char}
use glyphlang.Parser.Chars.{ch, is_blank, read_while}
use glyphlang.Parser.Lexer.{
  unterminated_string, new_lexer, read_string, string_token, next_other, token_case, next_token,
  skip_whitespace_except_newlines, lex_error, after_token, round_at, follow_round, tokenize_from,
  tokenize,
}
use glyphlang.Parser.Lexer.Strings.{escape_bytes, ends_string, read_string_body-escape_bytes}

-- A double quote, bytes with their escapes, and then the end of the input, a NUL or a newline
-- instead of a closing quote: Tokenize fails with the error of an unterminated string, which has the
-- place of its opening quote.
pub tokenize-unterminated_string :
    (bs rest : Str)
    → ends_string rest ≡ true
    → (ch rest == 0x22) ≡ false
    → tokenize (0x22 ∷ (escape_bytes bs ++ rest)) ≡ some (err (unterminated_string 1 1 0x22))
unfolding tokenize tokenize_from follow_round skip_whitespace_except_newlines is_blank read_while
    new_lexer round_at next_token token_case next_other read_string string_token after_token
    find_char is_illegal lex_error str_eq
tokenize-unterminated_string bs rest ends open_still =
    let n = suc (length (escape_bytes bs ++ rest)) in
    let start : 1 + (n - n) ≡ 1 = omega arith in
    rw
      (
        read_string_body-escape_bytes (suc (length (escape_bytes bs ++ rest))) bs rest
            (omega (arith, length-append {0} (escape_bytes bs) rest)) ends,
        open_still,
        start,
      )
      refl
