-- ===== src/Parser/Lexer/Whole.antt =====
-- Tokenize: it ends on every input, and which tokens it gives.
use glyphlang.Prelude.{
  ℕ, zero, suc, ◌+◌, ◌-◌, ◌≤◌, ◌<◌, ◌≡◌, refl, sym, ◌∙◌, ap, subst, Bool, true, false, not, ◌&&◌,
  ◌||◌, List, [], ◌∷◌, Option, some, none, Result, ok, err, ◌==◌, if◌then◌else◌, arith, length,
  length-drop,
}
use glyphlang.Prelude.Maps.{Str}
use mathlib.Core.Option
use glyphlang.Parser.Token.{Token, is_illegal, is_eof}
use glyphlang.Parser.Chars.{ch, peek_char, is_blank}
use glyphlang.Parser.Lexer.{
  Lexer, LexError, new_lexer, skip_whitespace_except_newlines, skip_comment, Round, reach, hangs,
  stops, rejects, skips, emits, after_token, round_at, add_token, follow_round, tokenize_from,
  tokenize,
}
use glyphlang.Parser.Lexer.Tokens.{next_token-Given}
use glyphlang.Parser.Lexer.Progress.{Given, given, IsRead, is_read, read_chars-IsRead, ch_behind}

-- A list of tokens that ends with the only EOF, without an ILLEGAL token.
pub data IsWhole : List Token → Type 0 where
  last : {t : Token} → is_eof t.type ≡ true → IsWhole (t ∷ [])
  more :
      {t : Token} {ts : List Token}
      → is_eof t.type ≡ false
      → is_illegal t.type ≡ false
      → IsWhole ts
      → IsWhole (t ∷ ts)

-- A place that is the first one or further on.
pub data Reaches : ℕ → ℕ → ℕ → ℕ → Type 0 where
  same_line :
      {line column line' column' : ℕ}
      → line ≡ line'
      → column ≤ column'
      → Reaches line column line' column'
  later_line : {line column line' column' : ℕ} → line < line' → Reaches line column line' column'

Reaches-trans : {a b c d e f : ℕ} → Reaches a b c d → Reaches c d e f → Reaches a b e f
Reaches-trans (same_line p q) (same_line r s) = same_line (p ∙ r) (omega arith)
Reaches-trans (same_line p q) (later_line r) = later_line (omega arith)
Reaches-trans (later_line p) (same_line r s) = later_line (omega arith)
Reaches-trans (later_line p) (later_line r) = later_line (omega arith)

-- Tokens from a place on, each behind the one before it.
pub data IsOrdered : ℕ → ℕ → List Token → Type 0 where
  done : {line column : ℕ} → IsOrdered line column []
  next :
      {line column : ℕ} {t : Token} {ts : List Token}
      → Reaches line column t.line t.column
      → IsOrdered t.line (t.column + 1) ts
      → IsOrdered line column (t ∷ ts)

IsOrdered-before :
    {line column line' column' : ℕ} {ts : List Token}
    → Reaches line column line' column'
    → IsOrdered line' column' ts
    → IsOrdered line column ts
IsOrdered-before r done = done
IsOrdered-before r (next r' ordered) = next (Reaches-trans r r') ordered

-- What a round from the lexer leads to: a list of one EOF, an error, or less input; with the places.
data Proceeds (l : Lexer) : Round → Type 0 where
  to_end :
      {t : Token}
      → is_eof t.type ≡ true
      → t.line ≡ l.line
      → t.column ≡ l.column
      → Proceeds l (stops (t ∷ []))
  to_error : {e : LexError} → Proceeds l (rejects e)
  past :
      {l₁ : Lexer}
      → length l₁.rest < length l.rest
      → l₁.line ≡ l.line
      → l.column ≤ l₁.column
      → Proceeds l (skips l₁)
  past_token :
      {t : Token} {l₁ : Lexer}
      → is_eof t.type ≡ false
      → is_illegal t.type ≡ false
      → length l₁.rest < length l.rest
      → t.line ≡ l.line
      → t.column ≡ l.column
      → Reaches t.line (t.column + 1) l₁.line l₁.column
      → Proceeds l (emits t l₁)

if-Proceeds :
    {l : Lexer} (b : Bool) {r s : Round}
    → (b ≡ true → Proceeds l r)
    → (b ≡ false → Proceeds l s)
    → Proceeds l (if b then r else s)
if-Proceeds true p q = p refl
if-Proceeds false p q = q refl

after_token-Proceeds :
    (l : Lexer) {m : Option (Token × Lexer)} → Given l m → Proceeds l (after_token m)
unfolding after_token
after_token-Proceeds l (given {r = (t, l₁)} a) =
    if-Proceeds (is_illegal t.type) (λ e. to_error)
      λ legal.
        if-Proceeds (is_eof t.type) (λ e. to_end e a.line a.column)
          λ going.
            let less = a.shorter legal going in
            let column : l₁.column ≡ l.column + (length l.rest - length a.to) =
              ap (λ (k : Lexer). k.column) a.reached in
            past_token going legal
              (omega (arith, less, ap (λ (k : Lexer). length k.rest) a.reached)) a.line a.column
              (same_line (a.line ∙ sym (ap (λ (k : Lexer). k.line) a.reached))
                (omega (arith, less, column, a.column)))

comment-Proceeds :
    (l : Lexer) {test : ℕ → Bool} {m : Option (Str × Str)}
    → IsRead test l.rest m
    → test (ch l.rest) ≡ true
    → Proceeds l (elim (Option.map (λ r. reach r.1 l) m) [ none ↦ hangs | some l₁ ↦ skips l₁ ])
comment-Proceeds l (is_read le less) holds = past (less holds) refl (omega arith)

round_at-Proceeds : (l : Lexer) → Proceeds l (round_at l)
unfolding round_at is_eof is_illegal skip_comment
round_at-Proceeds l =
    if-Proceeds (ch l.rest == 0) (λ e. to_end refl refl refl)
      λ e.
        let some_char = ch_behind l.rest e in
        if-Proceeds (ch l.rest == 0x0a)
          (λ n.
            past_token refl refl (omega (arith, length-drop 1 l.rest)) refl refl
              (later_line (omega arith)))
          λ n.
            if-Proceeds (ch l.rest == 0x23 || (ch l.rest == 0x2f && peek_char l.rest == 0x2f))
              (λ comment.
                comment-Proceeds l
                  (read_chars-IsRead (λ c. not (c == 0x0a) && not (c == 0)) l.rest refl)
                  (rw (n, e) refl))
              (λ other. after_token-Proceeds l (next_token-Given l))

-- A result, whose tokens are whole and stand in order from a place on.
data Ends (line column : ℕ) : Option (Result LexError (List Token)) → Type 0 where
  tokens :
      {ts : List Token} → IsWhole ts → IsOrdered line column ts → Ends line column (some (ok ts))
  failed : {e : LexError} → Ends line column (some (err e))

add_token-Ends :
    {line column line' column' : ℕ} (t : Token) {m : Option (Result LexError (List Token))}
    → is_eof t.type ≡ false
    → is_illegal t.type ≡ false
    → Reaches line column t.line t.column
    → Reaches t.line (t.column + 1) line' column'
    → Ends line' column' m
    → Ends line column (add_token t m)
unfolding add_token
add_token-Ends t e i from behind failed = failed
add_token-Ends t e i from behind (tokens whole ordered) =
    tokens (more e i whole) (next from (IsOrdered-before behind ordered))

Ends-before :
    {line column line' column' : ℕ} {m : Option (Result LexError (List Token))}
    → Reaches line column line' column'
    → Ends line' column' m
    → Ends line column m
Ends-before r failed = failed
Ends-before r (tokens whole ordered) = tokens whole (IsOrdered-before r ordered)

at_place :
    {line column line' column' : ℕ}
    → line' ≡ line
    → column' ≡ column
    → Reaches line column line' column'
at_place e e' = same_line (sym e) (omega (arith, e'))

-- The rest of the loop after a round, where the fuel is enough.
follow_round-Ends :
    (fuel : ℕ) (l : Lexer) {r : Round}
    → length l.rest ≤ fuel
    → ((l₁ : Lexer) → length l₁.rest < fuel → Ends l₁.line l₁.column (tokenize_from fuel l₁))
    → Proceeds l r
    → Ends l.line l.column (follow_round (tokenize_from fuel) r)
unfolding follow_round
follow_round-Ends fuel l fits later (to_end e p q) = tokens (last e) (next (at_place p q) done)
follow_round-Ends fuel l fits later to_error = failed
follow_round-Ends fuel l fits later (past {l₁ = l₁} less p q) =
    Ends-before (same_line (sym p) q) (later l₁ (omega arith))
follow_round-Ends fuel l fits later (past_token {t = t} {l₁} e i less p q behind) =
    add_token-Ends t e i (at_place p q) behind (later l₁ (omega arith))

tokenize_from-Ends :
    (fuel : ℕ) (l : Lexer) → length l.rest < fuel → Ends l.line l.column (tokenize_from fuel l)
unfolding tokenize_from skip_whitespace_except_newlines is_blank
tokenize_from-Ends zero l fits = absurd (omega arith)
tokenize_from-Ends (suc fuel) l fits =
    go (tokenize_from-Ends fuel) (read_chars-IsRead is_blank l.rest refl)
  where
    go :
        {m : Option (Str × Str)}
        → ((l₁ : Lexer) → length l₁.rest < fuel → Ends l₁.line l₁.column (tokenize_from fuel l₁))
        → IsRead is_blank l.rest m
        → Ends l.line l.column (elim (Option.map (λ r. reach r.1 l) m) [
          | none ↦ none
          | some l₁ ↦ follow_round (tokenize_from fuel) (round_at l₁)
        ])
    go later (is_read {r = r} le less) =
        let l₀ = reach r.1 l in
        Ends-before (same_line refl (omega arith))
          (follow_round-Ends fuel l₀ (omega arith) later (round_at-Proceeds l₀))

tokenize-Ends : (input : Str) → Ends 1 1 (tokenize input)
unfolding tokenize new_lexer
tokenize-Ends input = tokenize_from-Ends (suc (length input)) (new_lexer input) (omega arith)

-- Tokenize ends on every input, with tokens or with an error: its loop, and each loop inside it over
-- blanks, a comment, an identifier, digits and a string, ends.
pub tokenize-terminates :
    (input : Str) → (r : Result LexError (List Token)) × (tokenize input ≡ some r)
tokenize-terminates input = go (tokenize-Ends input)
  where
    go :
        {m : Option (Result LexError (List Token))}
        → Ends 1 1 m
        → (r : Result LexError (List Token)) × (m ≡ some r)
    go (tokens {ts = ts} whole ordered) = (ok ts, refl)
    go (failed {e = e}) = (err e, refl)

-- The tokens that Tokenize gives for an input end with the only EOF, none of them is ILLEGAL, and each
-- stands behind the one before it, by line and column.
pub tokenize-IsWhole :
    (input : Str) (ts : List Token) → tokenize input ≡ some (ok ts) → IsWhole ts × IsOrdered 1 1 ts
tokenize-IsWhole input ts e = go (tokenize-Ends input) e
  where
    go :
        {m : Option (Result LexError (List Token))}
        → Ends 1 1 m
        → m ≡ some (ok ts)
        → IsWhole ts × IsOrdered 1 1 ts
    go (tokens {ts = us} whole ordered) e =
        let same : us ≡ ts = cc in (subst IsWhole same whole, subst (IsOrdered 1 1) same ordered)
    go failed e = cc
