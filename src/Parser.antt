-- ===== src/Parser.antt =====
-- pkg/parser: the tokens and the lexer.
pub mod Token
pub mod Chars
pub mod Lexer
