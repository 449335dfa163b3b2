-- ===== src/Compiler/State/Pool.antt =====
-- The constant pool: addConstant finds or adds exactly the value that is asked for.
use glyphlang.Prelude.{
  ℕ, zero, suc, ◌+◌, ◌≤◌, ◌^◌, ◌≡◌, ◌≢◌, refl, sym, ◌∙◌, ap, subst, true, List, [], ◌∷◌, ◌++◌,
  append_assoc, append-nil, Option, some, none, arith, length, get_elem?, get_elem?-append_length,
  get_elem?-append_left, inl, inr, Bool-cases, length-append,
}
use glyphlang.Prelude.Maps.{str_eq→eq}
use glyphlang.Vm.Value.{Value, null, int, float, bool, str, Host}
use glyphlang.Vm.Compare.{values_equal}
use glyphlang.Compiler.State.{Compiler, find_constant, add_found, add_constant}

-- The bit pattern of the float -0.
abbrev pub negative_zero : ℕ
negative_zero = 2 ^ 63

-- Not -0, which `==` does not tell from 0.
abbrev pub IsClean : Value → Type 0
IsClean v = v ≢ float negative_zero

-- IEEE 754: two floats that compare equal, neither of them -0, have the same bit pattern.
abbrev pub FloatEqLaw : Host → Type 0
FloatEqLaw host =
    (a b : ℕ) → host.float_eq a b ≡ true → a ≢ negative_zero → b ≢ negative_zero → a ≡ b

abbrev pub Extends : List Value → List Value → Type 0
Extends xs ys = (more : List Value) × (ys ≡ xs ++ more)

pub Extends-refl : (xs : List Value) → Extends xs xs
Extends-refl xs = ([], sym (append-nil xs))

pub Extends-trans : (xs ys zs : List Value) → Extends xs ys → Extends ys zs → Extends xs zs
Extends-trans xs ys zs (m, e) (n, e') =
    (m ++ n, e' ∙ ap (λ (l : List Value). l ++ n) e ∙ append_assoc xs m n)

pub get_elem?-Extends :
    (xs ys : List Value) (i : ℕ) {v : Value}
    → Extends xs ys
    → get_elem? xs i ≡ some v
    → get_elem? ys i ≡ some v
get_elem?-Extends xs ys i (m, e) h = rw e (get_elem?-append_left xs m i h)

pub length-Extends : (xs ys : List Value) → Extends xs ys → length xs ≤ length ys
length-Extends xs ys (m, e) = omega (arith, length-append {0} xs m, ap length e)

-- Every constant of the pool is no -0.
abbrev pub CleanPool : List Value → Type 0
CleanPool xs = (i : ℕ) (v : Value) → get_elem? xs i ≡ some v → IsClean v

CleanPool-snoc : (xs : List Value) (v : Value) → CleanPool xs → IsClean v → CleanPool (xs ++ v ∷ [])
CleanPool-snoc [] v clean c zero w h = let e : v ≡ w = cc in subst IsClean e c
CleanPool-snoc [] v clean c (suc i) w h = cc
CleanPool-snoc (x ∷ xs) v clean c zero w h = clean zero w h
CleanPool-snoc (x ∷ xs) v clean c (suc i) w h = CleanPool-snoc xs v (λ j. clean (suc j)) c i w h

-- What addConstant makes of `c`, with the place `i` that it returns.
pub record Added (v : Value) (c : Compiler) (i : ℕ) (c' : Compiler) : Type 0 where
  pub found : get_elem? c'.constants i ≡ some v
  pub grows : Extends c.constants c'.constants
  pub clean : CleanPool c'.constants
  pub code : c'.code ≡ c.code
  pub table : c'.symbol_table ≡ c.symbol_table
  pub loops : c'.loop_stack ≡ c.loop_stack

module _ (host : Host) (law : FloatEqLaw host) where
  values_equal→eq : (a b : Value) → IsClean a → IsClean b → values_equal host a b ≡ true → a ≡ b
  unfolding values_equal
  values_equal→eq (int a) (int b) ca cb h = ground arith
  values_equal→eq (float a) (float b) ca cb h =
      ap float (law a b h (λ e. ca (ap float e)) (λ e. cb (ap float e)))
  values_equal→eq (bool a) (bool b) ca cb h = ground arith
  values_equal→eq (str a) (str b) ca cb h = ap str (str_eq→eq a b h)
  values_equal→eq null null ca cb h = refl
  values_equal→eq _ _ ca cb h = cc

  find_constant-found :
      (i : ℕ) (v : Value) (xs : List Value) {j : ℕ}
      → CleanPool xs
      → IsClean v
      → find_constant host i v xs ≡ some j
      → (k : ℕ) × (j ≡ i + k) × (get_elem? xs k ≡ some v)
  unfolding find_constant
  find_constant-found i v [] clean c h = cc
  find_constant-found i v (x ∷ xs) clean c h = elim (Bool-cases (values_equal host x v)) [
    | inl same ↦ (0, ground arith, ap some (values_equal→eq x v (clean zero x refl) c same))
    | inr other ↦
        let (k, e, found) =
          find_constant-found (suc i) v xs (λ n. clean (suc n)) c
            (rw (other, find_constant) at h) in
        (suc k, omega arith, found)
  ]

  add_found-Added :
      (o : Option ℕ) (v : Value) (c : Compiler)
      → find_constant host 0 v c.constants ≡ o
      → CleanPool c.constants
      → IsClean v
      → Added v c (add_found host o v c).0 (add_found host o v c).1
  unfolding add_found
  add_found-Added (some i) v c e clean ok_v =
      let (k, p, found) = find_constant-found 0 v c.constants clean ok_v e in
      record {
        found = let q : i ≡ k = omega arith in rw q found;
        grows = Extends-refl c.constants;
        clean = clean;
        code = refl;
        table = refl;
        loops = refl;
      }
  add_found-Added none v c e clean ok_v = record {
    found = get_elem?-append_length c.constants v [];
    grows = (v ∷ [], refl);
    clean = CleanPool-snoc c.constants v clean ok_v;
    code = refl;
    table = refl;
    loops = refl;
  }

  -- For a pool and a value without the float -0, under the law of float comparison: the place that
  -- addConstant returns holds the value, the pool only grows at its end and stays without -0, and
  -- neither the code nor the symbol table changes.
  pub add_constant-Added :
      (v : Value) (c : Compiler)
      → CleanPool c.constants
      → IsClean v
      → Added v c (add_constant host v c).0 (add_constant host v c).1
  unfolding add_constant
  add_constant-Added v c clean ok_v =
      add_found-Added (find_constant host 0 v c.constants) v c refl clean ok_v
