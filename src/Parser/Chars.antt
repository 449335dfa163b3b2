-- ===== src/Parser/Chars.antt =====
-- pkg/parser/lexer.go: the tests of characters, the loops that read characters, and the parts of a
-- string literal. The input from the current character on is a list: its first element is l.ch, or 0
-- at the end, and its second element is what peekChar returns.
use glyphlang.Prelude.{
  ℕ, zero, suc, ◌+◌, ◌-◌, ◌*◌, ◌/◌, ◌%◌, Bool, ◌&&◌, ◌||◌, List, [], ◌∷◌, ◌++◌, Option, some, none,
  leb, ◌==◌, if◌then◌else◌, length, get_or, drop,
}
use glyphlang.Prelude.Maps.{Str, bytes_of}
use mathlib.Core.Option

-- l.ch and peekChar
abbrev pub ch : Str → ℕ
ch rest = get_or rest 0 0

abbrev pub peek_char : Str → ℕ
peek_char rest = get_or rest 1 0

abbrev pub between : ℕ → ℕ → ℕ → Bool
between low high c = leb low c && leb c high

-- unicode.IsLetter of a byte as a code point: the letters of Latin-1.
unfoldable pub is_letter : ℕ → Bool
is_letter c =
    between 0x41 0x5a c
    || between 0x61 0x7a c
    || c == 0xaa
    || c == 0xb5
    || c == 0xba
    || between 0xc0 0xd6 c
    || between 0xd8 0xf6 c
    || between 0xf8 0xff c

-- unicode.IsDigit of a byte as a code point
unfoldable pub is_digit : ℕ → Bool
is_digit c = between 0x30 0x39 c

unfoldable pub is_identifier_start : ℕ → Bool
is_identifier_start c = is_letter c || c == 0x5f

unfoldable pub is_identifier_char : ℕ → Bool
is_identifier_char c = is_letter c || is_digit c || c == 0x5f

-- The condition of the loop over a path in readIdentifier.
unfoldable pub is_path_char : ℕ → Bool
is_path_char c = c == 0x2f || is_identifier_char c || c == 0x3a || c == 0x2d

unfoldable pub is_hex_digit : ℕ → Bool
is_hex_digit c = between 0x30 0x39 c || between 0x61 0x66 c || between 0x41 0x46 c

-- A loop that reads characters while they satisfy a test: what it reads, and the rest. At the end
-- readChar goes on giving 0, so where 0 satisfies the test the loop does not end, and the result is
-- `none` with any fuel.
unfoldable pub read_while : ℕ → (ℕ → Bool) → Str → Option (Str × Str)
read_while zero test cs = none
read_while (suc fuel) test cs =
    let more = read_while fuel test (drop 1 cs) in
    if test (ch cs) then Option.map (λ r. (ch cs ∷ r.0, r.1)) more else some ([], cs)

-- The loop with fuel for each character and for the end.
abbrev pub read_chars : (ℕ → Bool) → Str → Option (Str × Str)
read_chars test cs = read_while (suc (length cs)) test cs

-- skipWhitespaceExceptNewlines
unfoldable pub is_blank : ℕ → Bool
is_blank c = c == 0x20 || c == 0x09 || c == 0x0d

-- readHexDigits: at most `n` hex digits, and the rest behind them.
unfoldable pub read_hex_digits : ℕ → Str → Str × Str
read_hex_digits zero cs = ([], cs)
read_hex_digits (suc n) [] = ([], [])
read_hex_digits (suc n) (c ∷ cs) =
    let r = read_hex_digits n cs in if is_hex_digit c then (c ∷ r.0, r.1) else ([], c ∷ cs)

unfoldable pub hex_digit : ℕ → ℕ
hex_digit c = if leb c 0x39 then c - 0x30 else if leb c 0x46 then c - 0x37 else c - 0x57

-- strconv.ParseUint(hex, 16, …) of digits that fit.
unfoldable pub parse_hex : ℕ → Str → ℕ
parse_hex n [] = n
parse_hex n (c ∷ cs) = parse_hex (n * 16 + hex_digit c) cs

-- WriteRune of a code point below 2 ^ 16, where a surrogate is written as U+FFFD.
unfoldable pub write_rune : ℕ → Str
write_rune r =
    if leb r 0x7f
    then r ∷ []
    else if leb r 0x7ff
    then (0xc0 + r / 64) ∷ (0x80 + r % 64) ∷ []
    else if between 0xd800 0xdfff r
    then 0xef ∷ 0xbf ∷ 0xbd ∷ []
    else (0xe0 + r / 4096) ∷ (0x80 + r / 64 % 64) ∷ (0x80 + r % 64) ∷ []

-- The escapes of one character.
abbrev pub escapes : List (ℕ × ℕ)
escapes =
    (0x6e, 0x0a)
    ∷ (0x74, 0x09)
    ∷ (0x72, 0x0d)
    ∷ (0x22, 0x22)
    ∷ (0x27, 0x27)
    ∷ (0x5c, 0x5c)
    ∷ (0x30, 0)
    ∷ (0x61, 0x07)
    ∷ (0x62, 0x08)
    ∷ (0x66, 0x0c)
    ∷ (0x76, 0x0b)
    ∷ []

unfoldable pub find_escape : ℕ → List (ℕ × ℕ) → Option ℕ
find_escape c [] = none
find_escape c ((key, byte) ∷ rest) = if c == key then some byte else find_escape c rest

-- How a part of a string is read: the bytes and the rest, or the message of an ILLEGAL token and the
-- rest at that time.
pub data Reading : Type 0 where
  reads : Str → Str → Reading
  fails : Str → Str → Reading

-- `n` hex digits behind `cs`, which begins with the letter of the escape.
unfoldable pub read_hex_escape : ℕ → (ℕ → Str) → Str → Str → Reading
read_hex_escape n write message cs =
    let r = read_hex_digits n (drop 1 cs) in
    if length r.0 == n
    then reads (write (parse_hex 0 r.0)) r.1
    else fails message (drop (length r.0) cs)

-- The inner switch of readString and the readChar behind it; `cs` is behind the backslash.
unfoldable pub escape_case : Option ℕ → Str → Reading
escape_case (some byte) cs = reads (byte ∷ []) (drop 1 cs)
escape_case none cs =
    if ch cs == 0x78
    then read_hex_escape 2 (λ n. n ∷ []) (bytes_of "invalid \\x escape: expected 2 hex digits") cs
    else if ch cs == 0x75
    then read_hex_escape 4 write_rune (bytes_of "invalid \\u escape: expected 4 hex digits") cs
    else fails (bytes_of "unknown escape sequence: \\" ++ write_rune (ch cs)) cs

unfoldable pub read_escape : Str → Reading
unfolding escape_case
read_escape cs = escape_case (find_escape (ch cs) escapes) cs

abbrev pub prepend : Str → Reading → Reading
prepend bytes (reads more rest) = reads (bytes ++ more) rest
prepend bytes (fails message rest) = fails message rest

-- The loop goes on behind an escape.
unfoldable pub after_escape : (Str → Option Reading) → Reading → Option Reading
after_escape next (reads bytes rest) = Option.map (prepend bytes) (next rest)
after_escape next (fails message rest) = some (fails message rest)

-- The loop of readString, up to the character that ends it; `none` where the fuel ran out.
unfoldable pub read_string_body : ℕ → ℕ → Str → Option Reading
unfolding after_escape
read_string_body zero quote cs = none
read_string_body (suc fuel) quote cs =
    let next = read_string_body fuel quote in
    let c = ch cs in
    if c == quote || c == 0 || c == 0x0a
    then some (reads [] cs)
    else if c == 0x5c
    then after_escape next (read_escape (drop 1 cs))
    else Option.map (prepend (c ∷ [])) (next (drop 1 cs))
