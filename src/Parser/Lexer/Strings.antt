-- ===== src/Parser/Lexer/Strings.antt =====
-- String literals that are printed with escapes, and read again.
use glyphlang.Prelude.{
  ℕ, zero, suc, ◌<◌, Bool, ◌≡◌, ◌∙◌, ap, subst, refl, true, some, ◌||◌, [], ◌∷◌, ◌++◌, append_assoc,
  ◌==◌, if◌then◌else◌, arith, length, length-append, Bool-cases, inl, inr,
}
use glyphlang.Prelude.Maps.{Str}
use mathlib.Core.Option
use glyphlang.Parser.Chars.{
  ch, reads, prepend, after_escape, escape_case, find_escape, read_escape, read_string_body,
}

-- A byte in a literal between double quotes.
unfoldable pub escape_byte : ℕ → Str
escape_byte b =
    if b == 0x22
    then 0x5c ∷ 0x22 ∷ []
    else if b == 0x5c
    then 0x5c ∷ 0x5c ∷ []
    else if b == 0x0a
    then 0x5c ∷ 0x6e ∷ []
    else if b == 0
    then 0x5c ∷ 0x30 ∷ []
    else b ∷ []

unfoldable pub escape_bytes : Str → Str
escape_bytes [] = []
escape_bytes (b ∷ bs) = escape_byte b ++ escape_bytes bs

escape_byte-length : (b : ℕ) → 0 < length (escape_byte b)
unfolding escape_byte
escape_byte-length b = ground arith

-- A round of the loop at a printed byte.
abbrev IsRead : ℕ → Str → ℕ → Type 0
IsRead fuel cs b =
    read_string_body (suc fuel) 0x22 (escape_byte b ++ cs)
    ≡ Option.map (prepend (b ∷ [])) (read_string_body fuel 0x22 cs)

escaped-IsRead :
    (fuel : ℕ) (cs : Str) (b c : ℕ) → (b == c) ≡ true → IsRead fuel cs c → IsRead fuel cs b
escaped-IsRead fuel cs b c e read =
    let same : c ≡ b = ground arith in subst (IsRead fuel cs) same read

byte-IsRead : (fuel : ℕ) (cs : Str) (b : ℕ) → IsRead fuel cs b
unfolding read_string_body escape_byte after_escape read_escape escape_case find_escape
byte-IsRead fuel cs b = elim (Bool-cases (b == 0x22)) [
  | inl e ↦ escaped-IsRead fuel cs b 0x22 e refl
  | inr e ↦ elim (Bool-cases (b == 0x5c)) [
    | inl e₁ ↦ escaped-IsRead fuel cs b 0x5c e₁ refl
    | inr e₁ ↦ elim (Bool-cases (b == 0x0a)) [
      | inl e₂ ↦ escaped-IsRead fuel cs b 0x0a e₂ refl
      | inr e₂ ↦ elim (Bool-cases (b == 0)) [
        | inl e₃ ↦ escaped-IsRead fuel cs b 0 e₃ refl
        | inr e₃ ↦ rw (e, e₁, e₂, e₃, e, e₃, e₂, e₁) refl
      ]
    ]
  ]
]

-- The character at which the loop of readString ends: the quote, the end or a newline.
abbrev pub ends_string : Str → Bool
ends_string rest = ch rest == 0x22 || ch rest == 0 || ch rest == 0x0a

-- The loop of readString gives back the bytes, and stops at such a character.
pub read_string_body-escape_bytes :
    (fuel : ℕ) (bs rest : Str)
    → length (escape_bytes bs) < fuel
    → ends_string rest ≡ true
    → read_string_body fuel 0x22 (escape_bytes bs ++ rest) ≡ some (reads bs rest)
unfolding escape_bytes read_string_body
read_string_body-escape_bytes zero bs rest fits ends = absurd (omega arith)
read_string_body-escape_bytes (suc fuel) [] rest fits ends = rw ends refl
read_string_body-escape_bytes (suc fuel) (b ∷ bs) rest fits ends =
    let shorter : length (escape_bytes bs) < fuel =
      omega (arith, escape_byte-length b, length-append (escape_byte b) (escape_bytes bs)) in
    ap (read_string_body (suc fuel) 0x22) (append_assoc (escape_byte b) (escape_bytes bs) rest)
    ∙ byte-IsRead fuel (escape_bytes bs ++ rest) b
    ∙ ap (Option.map (prepend (b ∷ []))) (read_string_body-escape_bytes fuel bs rest shorter ends)
