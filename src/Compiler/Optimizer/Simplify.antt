-- ===== src/Compiler/Optimizer/Simplify.antt =====
-- pkg/compiler/optimizer.go: algebraicSimplify, on a literal and a value of one scalar type.
use glyphlang.Prelude.{
  ℕ, ◌^◌, ◌%◌, ◌*◌, ◌≡◌, refl, sym, ◌∙◌, ap, ==_iff, Bool, true, false, ◌&&◌, Option, some, none,
  ok, arith, if◌then◌else◌, ◌==◌,
}
use native.Mathlib.Nat.{mul_comm}
use glyphlang.Prelude.Maps.{Str}
use glyphlang.Int64
use glyphlang.Vm.Value.{Value, int, bool, str, Host, Fields, Heap, Fallible}
use glyphlang.Vm.Arith.{add_values, sub_values, mul_values, div_values, pure_op}
use glyphlang.Vm.Compare.{and_values, or_values}
use glyphlang.Eval.{eval, literal_meaning, binary_meaning}
use glyphlang.Ast.{
  Literal, int_literal, string_literal, bool_literal, BinOp, add, sub, mul, div, and, or, Expr,
  literal, binary,
}
use glyphlang.Compiler.Optimizer.{Level, is_aggressive, algebraic_simplify, bool_eq}

-- The integers that the simplifications rest on.
zero_add : (m n : ℕ) → Int64.IsInt64 n → (m == 0) ≡ true → n ≡ Int64.add m n
unfolding Int64.add
zero_add m n small z = omega (arith, (==_iff m 0).0 z)

add_zero : (m n : ℕ) → Int64.IsInt64 n → (m == 0) ≡ true → n ≡ Int64.add n m
unfolding Int64.add
add_zero m n small z = omega (arith, (==_iff m 0).0 z)

sub_zero : (m n : ℕ) → Int64.IsInt64 n → (m == 0) ≡ true → n ≡ Int64.sub n m
unfolding Int64.sub
sub_zero m n small z = omega (arith, (==_iff m 0).0 z)

zero_mul : (m n : ℕ) → (m == 0) ≡ true → 0 ≡ m * n % 2 ^ 64
zero_mul m n z = rw ((==_iff m 0).0 z) (omega arith)

one_mul : (m n : ℕ) → Int64.IsInt64 n → (m == 1) ≡ true → n ≡ m * n % 2 ^ 64
one_mul m n small z = rw ((==_iff m 1).0 z) (omega arith)

two_mul : (m n : ℕ) (level : Bool) → ((m == 2) && level) ≡ true → Int64.add n n ≡ m * n % 2 ^ 64
unfolding Int64.add
two_mul m n level z = rw ((==_iff m 2).0 (ground arith)) (omega arith)

div_one : (m n : ℕ) → Int64.IsInt64 n → (m == 1) ≡ true → n ≡ Int64.div n m
unfolding Int64.div Int64.magnitude Int64.is_neg Int64.neg
div_one m n small z = rw ((==_iff m 1).0 z) (ground arith)

-- A literal and a value of one scalar type.
pub data Alike : Literal → Value → Type 0 where
  alike_int : (m n : ℕ) → Int64.IsInt64 n → Alike (int_literal m) (int n)
  alike_bool : (b c : Bool) → Alike (bool_literal b) (bool c)
  alike_str : (s t : Str) → Alike (string_literal s) (str t)

-- Where `x` has the value `v` in the heap `h`, what stands in the place of the operation has the
-- operation's value, if that has one.
module _ (host : Host) (locals globals : Fields) (level : Level) (h : Heap) where
  abbrev pub Keeps : Option Expr → Fallible (Value × Heap) → Type 0
  Keeps (some e) r = (w : Value × Heap) → r ≡ ok w → eval host locals globals e h ≡ ok w
  Keeps none r = Unit

  pub eval-binary :
      (op : BinOp) (l r : Expr) (a b : Value)
      → eval host locals globals l h ≡ ok (a, h)
      → eval host locals globals r h ≡ ok (b, h)
      → eval host locals globals (binary op l r) h ≡ binary_meaning host op a b h
  unfolding eval
  eval-binary op l r a b el er = rw el (rw er refl)

  if-Keeps :
      (test : Bool) (o₁ o₂ : Option Expr) (r : Fallible (Value × Heap))
      → (test ≡ true → Keeps o₁ r)
      → (test ≡ false → Keeps o₂ r)
      → Keeps (if test then o₁ else o₂) r
  if-Keeps true o₁ o₂ r yes_case no_case = yes_case refl
  if-Keeps false o₁ o₂ r yes_case no_case = no_case refl

  value-Keeps :
      (e : Expr) (v v' : Value)
      → eval host locals globals e h ≡ ok (v, h)
      → v ≡ v'
      → Keeps (some e) (ok (v', h))
  value-Keeps e v v' here same w q = here ∙ ap (λ u. ok (u, h)) same ∙ q

  module _ (x : Expr) where
    simplify_mul-Keeps :
        (m n product : ℕ) (on_left : Bool)
        → Int64.IsInt64 n
        → product ≡ m * n % 2 ^ 64
        → eval host locals globals x h ≡ ok (int n, h)
        → Keeps (algebraic_simplify host level mul (int_literal m) x on_left) (ok (int product, h))
    unfolding algebraic_simplify eval binary_meaning literal_meaning add_values
    simplify_mul-Keeps m n product on_left small p e =
        if-Keeps (m == 0) _ _ _
          (λ z.
            value-Keeps (literal (int_literal 0)) (int 0) (int product) refl
              (ap int (zero_mul m n z ∙ sym p)))
          (λ _.
            if-Keeps (m == 1) _ _ _
              (λ z. value-Keeps x (int n) (int product) e (ap int (one_mul m n small z ∙ sym p)))
              (λ _.
                if-Keeps ((m == 2) && is_aggressive level) _ _ _
                  (λ z.
                    value-Keeps (binary add x x) (int (Int64.add n n)) (int product)
                      (eval-binary add x x (int n) (int n) e e)
                      (ap int (two_mul m n (is_aggressive level) z ∙ sym p)))
                  (λ _. tt)))

    pub simplify_left-Keeps :
        (op : BinOp) {lit : Literal} {v : Value}
        → Alike lit v
        → eval host locals globals x h ≡ ok (v, h)
        → Keeps
            (algebraic_simplify host level op lit x true)
            (binary_meaning host op (literal_meaning lit) v h)
    unfolding algebraic_simplify binary_meaning literal_meaning pure_op add_values sub_values
        mul_values and_values or_values is_aggressive Int64.mul eval bool_eq
    simplify_left-Keeps add (alike_int m n small) e =
        if-Keeps (m == 0) _ _ _ (λ z. value-Keeps x (int n) _ e (ap int (zero_add m n small z)))
          (λ _. tt)
    simplify_left-Keeps mul (alike_int m n small) e = simplify_mul-Keeps m n _ true small refl e
    simplify_left-Keeps and (alike_bool true c) e = value-Keeps x _ _ e refl
    simplify_left-Keeps and (alike_bool false c) e = λ w q. q
    simplify_left-Keeps or (alike_bool true c) e = λ w q. q
    simplify_left-Keeps or (alike_bool false c) e = value-Keeps x _ _ e refl
    simplify_left-Keeps op alike e = tt

    pub simplify_right-Keeps :
        (op : BinOp) {lit : Literal} {v : Value}
        → Alike lit v
        → eval host locals globals x h ≡ ok (v, h)
        → Keeps
            (algebraic_simplify host level op lit x false)
            (binary_meaning host op v (literal_meaning lit) h)
    unfolding algebraic_simplify binary_meaning literal_meaning pure_op add_values sub_values
        mul_values and_values or_values Int64.mul eval bool_eq div_values
    simplify_right-Keeps add (alike_int m n small) e =
        if-Keeps (m == 0) _ _ _ (λ z. value-Keeps x (int n) _ e (ap int (add_zero m n small z)))
          (λ _. tt)
    simplify_right-Keeps sub (alike_int m n small) e =
        if-Keeps (m == 0) _ _ _ (λ z. value-Keeps x (int n) _ e (ap int (sub_zero m n small z)))
          (λ _. tt)
    simplify_right-Keeps mul (alike_int m n small) e =
        simplify_mul-Keeps m n _ false small (ap (λ k. k % 2 ^ 64) (mul_comm n m)) e
    simplify_right-Keeps div (alike_int m n small) e =
        if-Keeps (m == 1) _ _ _
          (λ z.
            rw ((==_iff m 1).0 z, div_values)
              (value-Keeps x (int n) _ e (ap int (div_one 1 n small refl))))
          (λ _. tt)
    simplify_right-Keeps and (alike_bool true true) e = value-Keeps x _ _ e refl
    simplify_right-Keeps and (alike_bool true false) e = value-Keeps x _ _ e refl
    simplify_right-Keeps and (alike_bool false true) e = λ w q. q
    simplify_right-Keeps and (alike_bool false false) e = λ w q. q
    simplify_right-Keeps or (alike_bool true true) e = λ w q. q
    simplify_right-Keeps or (alike_bool true false) e = λ w q. q
    simplify_right-Keeps or (alike_bool false true) e = value-Keeps x _ _ e refl
    simplify_right-Keeps or (alike_bool false false) e = value-Keeps x _ _ e refl
    simplify_right-Keeps op alike e = tt
