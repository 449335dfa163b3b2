-- ===== src/Compiler/Optimizer/Folding.antt =====
-- pkg/compiler/optimizer.go: foldLiteralBinaryOp and the identities of foldBinaryOp compute what
-- the machine computes.
use glyphlang.Prelude.{
  ℕ, ◌≡◌, refl, ap, Bool, true, false, not, Option, some, none, ok, arith, ◌==◌, Bool-cases, inl,
  inr,
}
use glyphlang.Int64
use glyphlang.Vm.Value.{Value, int, float, bool, Host, Heap, Fallible}
use glyphlang.Vm.Arith.{add_values, sub_values, mul_values, div_values, mod_values, pure_op}
use glyphlang.Vm.Compare.{
  and_values, or_values, eq_values, ne_values, lt_values, gt_values, ge_values, le_values,
  values_equal,
}
use glyphlang.Eval.{literal_meaning, binary_meaning}
use glyphlang.Ast.{
  Literal, int_literal, bool_literal, float_literal, BinOp, sub, div, eq, ne, lt, le, gt, ge, and,
  or, mod_op,
}
use glyphlang.Compiler.Optimizer.{
  fold_ints, fold_floats, fold_bools, folded_literal, identity_result, bool_eq,
}

sub_self : (n : ℕ) → Int64.sub n n ≡ 0
unfolding Int64.sub
sub_self n = omega arith

eq_self : (n : ℕ) → (n == n) ≡ true
eq_self n = ground arith

lt_self : (n : ℕ) → Int64.lt n n ≡ false
unfolding Int64.lt
lt_self n = ground arith

le_self : (n : ℕ) → Int64.le n n ≡ true
unfolding Int64.le
le_self n = ground arith

-- `v` is what `l` stands for, if there is a literal.
abbrev pub Folds : Heap → Option Literal → Fallible (Value × Heap) → Type 0
Folds h (some l) r = r ≡ ok (literal_meaning l, h)
Folds h none r = Unit

module _ (host : Host) (h : Heap) where
  ints-Folds :
      (op : BinOp) (a b : ℕ)
      → Folds h (fold_ints host op a b) (binary_meaning host op (int a) (int b) h)
  unfolding fold_ints binary_meaning literal_meaning pure_op add_values sub_values mul_values
      eq_values ne_values lt_values le_values gt_values ge_values and_values or_values div_values
      mod_values values_equal
  ints-Folds div a b = elim (Bool-cases (b == 0)) [
    | inl e ↦ rw (e, fold_ints) tt
    | inr e ↦ rw (e, fold_ints, div_values) refl
  ]
  ints-Folds mod_op a b = elim (Bool-cases (b == 0)) [
    | inl e ↦ rw (e, fold_ints) tt
    | inr e ↦ rw (e, fold_ints, mod_values) refl
  ]
  ints-Folds and a b = tt
  ints-Folds or a b = tt
  ints-Folds _ a b = refl

  floats-Folds :
      (op : BinOp) (a b : ℕ)
      → Folds h (fold_floats host op a b) (binary_meaning host op (float a) (float b) h)
  unfolding fold_floats binary_meaning literal_meaning pure_op add_values sub_values mul_values
      eq_values ne_values lt_values le_values gt_values ge_values and_values or_values div_values
      mod_values values_equal
  floats-Folds div a b = elim (Bool-cases (host.float_eq b 0)) [
    | inl e ↦ rw (e, fold_floats) tt
    | inr e ↦ rw (e, fold_floats, div_values) refl
  ]
  floats-Folds mod_op a b = elim (Bool-cases (host.float_eq b 0)) [
    | inl e ↦ rw (e, fold_floats) tt
    | inr e ↦ rw (e, fold_floats, mod_values) refl
  ]
  floats-Folds and a b = tt
  floats-Folds or a b = tt
  floats-Folds _ a b = refl

  bools-Folds :
      (op : BinOp) (a b : Bool)
      → Folds h (fold_bools host op a b) (binary_meaning host op (bool a) (bool b) h)
  unfolding fold_bools binary_meaning literal_meaning pure_op eq_values ne_values and_values
      or_values values_equal bool_eq
  bools-Folds and a b = refl
  bools-Folds or a b = refl
  bools-Folds eq a b = refl
  bools-Folds ne a b = refl
  bools-Folds _ a b = tt

  pub literals-Folds :
      (op : BinOp) (a b : Literal)
      → Folds h
          (folded_literal host op a b)
          (binary_meaning host op (literal_meaning a) (literal_meaning b) h)
  unfolding folded_literal literal_meaning
  literals-Folds op (int_literal a) (int_literal b) = ints-Folds op a b
  literals-Folds op (float_literal a) (float_literal b) = floats-Folds op a b
  literals-Folds op (bool_literal a) (bool_literal b) = bools-Folds op a b
  literals-Folds op _ _ = tt

  -- The identities `x op x`, at one integer twice.
  pub identity-Folds :
      (op : BinOp) (n : ℕ) → Folds h (identity_result op) (binary_meaning host op (int n) (int n) h)
  unfolding identity_result binary_meaning literal_meaning pure_op sub_values eq_values ne_values
      lt_values le_values gt_values ge_values values_equal
  identity-Folds sub n = ap (λ k. ok (int k, h)) (sub_self n)
  identity-Folds eq n = ap (λ b. ok (bool b, h)) (eq_self n)
  identity-Folds ne n = ap (λ b. ok (bool (not b), h)) (eq_self n)
  identity-Folds lt n = ap (λ b. ok (bool b, h)) (lt_self n)
  identity-Folds gt n = ap (λ b. ok (bool b, h)) (lt_self n)
  identity-Folds le n = ap (λ b. ok (bool b, h)) (le_self n)
  identity-Folds ge n = ap (λ b. ok (bool b, h)) (le_self n)
  identity-Folds _ n = tt
