-- ===== src/Compiler/Container/Loading.antt =====
-- What the loader reads in the container that buildBytecode writes.
use glyphlang.Prelude.{
  ℕ, zero, suc, ◌+◌, ◌≤◌, ◌<◌, ◌%◌, ◌^◌, ◌≡◌, refl, sym, ◌∙◌, ap, subst, Bool, true, false, List,
  [], ◌∷◌, ◌++◌, append_assoc, ok, ◌>>=◌, >>=-eq-ok, arith, le→leb, length, length-append,
  length-drop, drop, if◌then◌else◌, take-length-append, drop-length-append, get_or,
}
use glyphlang.Bytes.{
  put_u32, put_u64, u32, u64, u32-put_u32, u64-put_u64, length-put_u32, length-put_u64,
}
use glyphlang.Vm.Value.{
  Value, null, int, float, bool, str, array, object, future, result_ok, result_err,
}
use glyphlang.Vm.Loader.{need, read_payload, read_constant, read_constants}
use glyphlang.Compiler.Container.{serialize_constant, serialize_constants}

-- `xs` are the bytes from the offset on.
pub record Remains (bytes : List ℕ) (offset : ℕ) (xs : List ℕ) : Type 0 where
  pub rest : drop offset bytes ≡ xs
  pub within : offset ≤ length bytes

drop-nil : (n : ℕ) → drop {A = ℕ} n [] ≡ []
drop-nil zero = refl
drop-nil (suc n) = refl

drop_add : (n m : ℕ) (xs : List ℕ) → drop (n + m) xs ≡ drop m (drop n xs)
drop_add zero m xs = ap (λ (k : ℕ). drop k xs) (omega arith)
drop_add (suc n) m [] = drop-nil (suc n + m) ∙ sym (drop-nil m)
drop_add (suc n) m (x ∷ xs) =
    let e : suc n + m ≡ suc (n + m) = omega arith in
    ap (λ (k : ℕ). drop k (x ∷ xs)) e ∙ drop_add n m xs

get_or-drop : (xs : List ℕ) (n : ℕ) {b : ℕ} {bs : List ℕ} → drop n xs ≡ b ∷ bs → get_or xs n 0 ≡ b
get_or-drop [] zero h = cc
get_or-drop [] (suc n) h = cc
get_or-drop (x ∷ xs) zero h = cc
get_or-drop (x ∷ xs) (suc n) h = get_or-drop xs n h

module _ {bytes : List ℕ} {offset : ℕ} where
  Remains-size : {xs : List ℕ} → Remains bytes offset xs → offset + length xs ≤ length bytes
  Remains-size r = omega (arith, r.within, ap length r.rest, length-drop offset bytes)

  pub Remains-append :
      (xs ys : List ℕ) → Remains bytes offset (xs ++ ys) → Remains bytes (offset + length xs) ys
  Remains-append xs ys r = record {
    rest =
        drop_add offset (length xs) bytes ∙ ap (drop (length xs)) r.rest ∙ drop-length-append xs ys;
    within = omega (arith, Remains-size r, length-append xs ys);
  }

  pub Remains-at :
      {offset' : ℕ} {xs : List ℕ}
      → offset ≡ offset'
      → Remains bytes offset xs
      → Remains bytes offset' xs
  Remains-at {xs = xs} e r = subst (λ n. Remains bytes n xs) e r

  pub need-ok :
      (n : ℕ) (xs ys : List ℕ)
      → Remains bytes offset (xs ++ ys)
      → n ≡ length xs
      → need n offset bytes ≡ ok tt
  need-ok n xs ys r e =
      rw (le→leb (offset + n) (length bytes) (omega (arith, Remains-size r, length-append xs ys)))
        refl

  pub u32-Remains :
      (n : ℕ) (ys : List ℕ)
      → Remains bytes offset (put_u32 n ++ ys)
      → n < 2 ^ 32
      → u32 (drop offset bytes) ≡ n
  u32-Remains n ys r small = ap u32 r.rest ∙ u32-put_u32 n ys small

  u64-Remains :
      (n : ℕ) (ys : List ℕ)
      → Remains bytes offset (put_u64 n ++ ys)
      → n < 2 ^ 64
      → u64 (drop offset bytes) ≡ n
  u64-Remains n ys r small = ap u64 r.rest ∙ u64-put_u64 n ys small

-- A constant that the container has room for: a number of 64 bits, or a string with a length of 32.
unfoldable pub IsStorable : Value → Type 0
IsStorable (int n) = n < 2 ^ 64
IsStorable (float f) = f < 2 ^ 64
IsStorable (str s) = length s < 2 ^ 32
IsStorable _ = Unit

-- The reader gives the constant that was written, and the offset behind it.
module _ (bytes : List ℕ) (offset : ℕ) where
  abbrev Payload : ℕ → Value → List ℕ → Type 0
  Payload tag v xs =
      (ys : List ℕ)
      → Remains bytes offset (xs ++ ys)
      → read_payload tag bytes offset ≡ ok (v, offset + length xs)

  int-Payload : (n : ℕ) → n < 2 ^ 64 → Payload 1 (int n) (put_u64 n)
  unfolding read_payload
  int-Payload n small ys r =
      rw
        (
          need-ok 8 (put_u64 n) ys r (sym (length-put_u64 n)),
          u64-Remains n ys r small,
          length-put_u64 n,
        )
        refl

  float-Payload : (n : ℕ) → n < 2 ^ 64 → Payload 2 (float n) (put_u64 n)
  unfolding read_payload
  float-Payload n small ys r =
      rw
        (
          need-ok 8 (put_u64 n) ys r (sym (length-put_u64 n)),
          u64-Remains n ys r small,
          length-put_u64 n,
        )
        refl

  bool-Payload : (b : Bool) → Payload 3 (bool b) ((if b then 1 else 0) ∷ [])
  unfolding read_payload
  bool-Payload true ys r = rw (need-ok 1 (1 ∷ []) ys r refl, get_or-drop bytes offset r.rest) refl
  bool-Payload false ys r = rw (need-ok 1 (0 ∷ []) ys r refl, get_or-drop bytes offset r.rest) refl

  str-Payload : (s : List ℕ) → length s < 2 ^ 32 → Payload 4 (str s) (put_u32 (length s) ++ s)
  unfolding read_payload
  str-Payload s small ys r =
      let r' : Remains bytes offset (put_u32 (length s) ++ (s ++ ys)) =
        rw (sym (append_assoc (put_u32 (length s)) s ys)) r in
      let later =
        Remains-at (ap (λ (k : ℕ). offset + k) (length-put_u32 (length s)))
          (Remains-append (put_u32 (length s)) (s ++ ys) r') in
      let end_at : offset + length (put_u32 (length s) ++ s) ≡ offset + 4 + length s =
        omega (arith, length-append {0} (put_u32 (length s)) s, length-put_u32 (length s)) in
      rw
        (
          need-ok 4 (put_u32 (length s)) (s ++ ys) r' (sym (length-put_u32 (length s))),
          u32-Remains (length s) (s ++ ys) r' small,
          need-ok (length s) s ys later refl,
          later.rest,
          take-length-append s ys,
          end_at,
        )
        refl

module _ (bytes : List ℕ) (offset : ℕ) where
  read-tagged :
      (tag : ℕ) (v : Value) (zs xs ys : List ℕ)
      → tag ∷ zs ≡ xs
      → Remains bytes offset (xs ++ ys)
      → ((more : List ℕ)
          → Remains bytes (offset + 1) (zs ++ more)
          → read_payload tag bytes (offset + 1) ≡ ok (v, offset + 1 + length zs))
      → read_constant bytes offset ≡ ok (v, offset + length xs)
  unfolding read_constant
  read-tagged tag v zs xs ys e r payload =
      let r' : Remains bytes offset (tag ∷ (zs ++ ys)) =
        subst (λ l. Remains bytes offset (l ++ ys)) (sym e) r in
      let far : offset + 1 + length zs ≡ offset + length xs = omega (arith, ap length e) in
      rw
        (
          need-ok 1 (tag ∷ []) (zs ++ ys) r' refl,
          get_or-drop bytes offset r'.rest,
          payload ys (Remains-append (tag ∷ []) (zs ++ ys) r'),
          far,
        )
        refl

  -- A constant that is written is read.
  read_constant-serialize_constant :
      (v : Value) (xs ys : List ℕ)
      → serialize_constant v ≡ ok xs
      → IsStorable v
      → Remains bytes offset (xs ++ ys)
      → read_constant bytes offset ≡ ok (v, offset + length xs)
  unfolding serialize_constant IsStorable read_payload
  read_constant-serialize_constant null xs ys e small r =
      read-tagged 0 null [] xs ys (cc) r λ more q. ap (λ (k : ℕ). ok (null, k)) (omega arith)
  read_constant-serialize_constant (int n) xs ys e small r =
      read-tagged 1 (int n) (put_u64 n) xs ys (cc) r (int-Payload bytes (offset + 1) n small)
  read_constant-serialize_constant (float n) xs ys e small r =
      read-tagged 2 (float n) (put_u64 n) xs ys (cc) r (float-Payload bytes (offset + 1) n small)
  read_constant-serialize_constant (bool b) xs ys e small r =
      read-tagged 3 (bool b) ((if b then 1 else 0) ∷ []) xs ys (cc) r
        (bool-Payload bytes (offset + 1) b)
  read_constant-serialize_constant (str s) xs ys e small r =
      let fits : length s % 2 ^ 32 ≡ length s = omega arith in
      let written : 4 ∷ (put_u32 (length s % 2 ^ 32) ++ s) ≡ xs = cc in
      read-tagged 4 (str s) (put_u32 (length s) ++ s) xs ys (rw fits at written) r
        (str-Payload bytes (offset + 1) s small)
  read_constant-serialize_constant (array n) xs ys e small r = cc
  read_constant-serialize_constant (object n) xs ys e small r = cc
  read_constant-serialize_constant (future n) xs ys e small r = cc
  read_constant-serialize_constant (result_ok n) xs ys e small r = cc
  read_constant-serialize_constant (result_err n) xs ys e small r = cc

-- Every constant of a pool has room.
unfoldable pub AllStorable : List Value → Type 0
AllStorable [] = Unit
AllStorable (v ∷ vs) = IsStorable v × AllStorable vs

pub read_constants-serialize_constants :
    (bytes : List ℕ) (offset : ℕ) (vs : List Value) (xs ys : List ℕ)
    → serialize_constants vs ≡ ok xs
    → AllStorable vs
    → Remains bytes offset (xs ++ ys)
    → read_constants (length vs) bytes offset ≡ ok (vs, offset + length xs)
unfolding serialize_constants read_constants AllStorable
read_constants-serialize_constants bytes offset [] xs ys e small r =
    let none : [] ≡ xs = cc in
    let far : offset ≡ offset + length xs = omega (arith, ap length none) in
    ap (λ (k : ℕ). ok ([], k)) far
read_constants-serialize_constants bytes offset (v ∷ vs) xs ys e (small, smalls) r =
    let (b, first, e') =
      >>=-eq-ok (serialize_constant v) (λ b. serialize_constants vs >>= λ bs. ok (b ++ bs)) e in
    let (bs, others, e'') = >>=-eq-ok (serialize_constants vs) (λ (bs : List ℕ). ok (b ++ bs)) e' in
    let whole : xs ≡ b ++ bs = cc in
    let r' : Remains bytes offset (b ++ (bs ++ ys)) =
      rw (sym (append_assoc b bs ys), sym whole) r in
    let far : offset + length b + length bs ≡ offset + length xs =
      omega (arith, ap length whole, length-append b bs) in
    rw
      (
        read_constant-serialize_constant bytes offset v b (bs ++ ys) first small r',
        read_constants-serialize_constants bytes (offset + length b) vs bs ys others smalls
            (Remains-append b (bs ++ ys) r'),
        far,
      )
      refl
