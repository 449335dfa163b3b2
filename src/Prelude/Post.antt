-- ===== src/Prelude/Post.antt =====
-- Postconditions of a fallible call: a property of the value that it returns, if it returns one.
use glyphlang.Prelude.Results.{Result, ok, err, ◌>>=◌}

pub data Post {ℓ} {E : Type 0} {A : Type ℓ} (P : A → Type 0) : Result E A → Type ℓ where
  returns : {a : A} → P a → Post P (ok a)
  raises : {e : E} → Post P (err e)

module _ {ℓ κ} {E : Type 0} {A : Type ℓ} {B : Type κ} where
  pub Post-bind :
      {P : A → Type 0} {Q : B → Type 0} {r : Result E A} {f : A → Result E B}
      → Post P r
      → ((a : A) → P a → Post Q (f a))
      → Post Q (r >>= f)
  Post-bind (returns h) k = k _ h
  Post-bind raises k = raises

module _ {ℓ} {E : Type 0} {A : Type ℓ} where
  -- Every call has the trivial postcondition.
  pub any_result : (r : Result E A) → Post (λ _. Unit {0}) r
  any_result (ok a) = returns tt
  any_result (err e) = raises

  pub Post-ok : {P : A → Type 0} {a : A} → Post {E = E} P (ok a) → P a
  Post-ok (returns h) = h
