-- ===== src/Tests/Optimizing.antt =====
-- The optimizer at concrete inputs.
use glyphlang.Prelude.{ℕ, ◌≡◌, refl, [], ◌∷◌, some, ok, arith, Bool-cases, inl, inr, subst}
use glyphlang.Prelude.Maps.{Str, lookup, str_eq, str_eq→eq}
use glyphlang.Int64
use glyphlang.Vm.Value.{Value, Fallible, int, Fields}
use glyphlang.Vm.Arith.{pure_op, mul_values, add_values}
use glyphlang.Vm.Control.{variable_value}
use glyphlang.Eval.{eval, literal_meaning, binary_meaning}
use glyphlang.Ast.{Expr, literal, variable, binary, add, mul, int_literal}
use glyphlang.Compiler.Optimizer.{
  Optimizer, opt_aggressive, optimize_expression, root_variable, follow,
}
use glyphlang.Compiler.Optimizer.Copies.{Agrees, root_variable-enough}
use glyphlang.Compiler.Optimizer.Typing.{
  of_binary, of_variable, of_int_literal, int_type, of_int, OfType, result_type,
}
use glyphlang.Compiler.Optimizer.Sound.{IsTyped, scalar, optimize_expression-eval}
use glyphlang.Tests.Samples.{sample_host, no_heap}

-- x = 7, y = 5 and z = y
abbrev sample_locals : Fields
sample_locals = (120 ∷ [], int 7) ∷ (121 ∷ [], int 5) ∷ (122 ∷ [], int 5) ∷ []

abbrev sample_optimizer : Optimizer
sample_optimizer = record {
  level = opt_aggressive;
  constants = (121 ∷ [], int_literal 5) ∷ [];
  expressions = [];
  copies = (122 ∷ [], 121 ∷ []) ∷ [];
}

-- (x + 0) * z, which becomes x * 5
abbrev sample_product : Expr
sample_product =
    binary mul (binary add (variable (120 ∷ [])) (literal (int_literal 0))) (variable (122 ∷ []))

lookup_one :
    {V : Type 0} (k name : Str) {v w : V}
    → lookup name ((k, v) ∷ []) ≡ some w
    → (k ≡ name) × (v ≡ w)
unfolding lookup
lookup_one k name {v} {w} h = elim (Bool-cases (str_eq k name)) [
  | inl same ↦ (str_eq→eq k name same, ground (arith, same))
  | inr apart ↦ absurd (ground (arith, apart))
]

sample_Agrees : Agrees sample_locals [] sample_optimizer
unfolding lookup variable_value str_eq literal_meaning
sample_Agrees = record {
  constant = λ name lit h.
      let (same, is) = lookup_one (121 ∷ []) name h in
      subst (λ n. variable_value sample_locals [] n ≡ ok (literal_meaning lit)) same
        (subst (λ l. ◌≡◌ {A = Fallible Value} (ok (int 5)) (ok (literal_meaning l))) is refl);
  copy = λ name target h.
      let (same, is) = lookup_one (122 ∷ []) name h in
      subst (λ n. variable_value sample_locals [] n ≡ variable_value sample_locals [] target) same
        (subst (λ t. ◌≡◌ {A = Fallible Value} (ok (int 5)) (variable_value sample_locals [] t)) is
          refl);
}

is_int :
    (n : ℕ) (v : Value)
    → Int64.IsInt64 n
    → ◌≡◌ {A = Fallible Value} (ok (int n)) (ok v)
    → OfType int_type v
is_int n v small e = subst (OfType int_type) (cc) (of_int n small)

sample_IsTyped : IsTyped sample_host sample_locals [] sample_optimizer sample_product
unfolding variable_value lookup str_eq result_type
sample_IsTyped = scalar (
    of_binary mul
      (of_binary add (of_variable (120 ∷ []) (λ v e. is_int 7 v (omega arith) e))
        (of_int_literal 0 (omega arith)) int_type refl)
      (of_variable (122 ∷ []) (λ v e. is_int 5 v (omega arith) e)) int_type refl)

optimize_expression-eval_example :
    eval sample_host sample_locals []
      (optimize_expression sample_host sample_optimizer sample_product)
      no_heap
    ≡ ok (int 35, no_heap)
unfolding eval variable_value lookup str_eq literal_meaning binary_meaning pure_op mul_values
    add_values Int64.add Int64.mul
optimize_expression-eval_example =
    optimize_expression-eval sample_host sample_locals [] sample_optimizer sample_Agrees
      sample_product sample_IsTyped no_heap (int 35, no_heap) refl

root_variable-enough_example :
    follow 5 sample_optimizer.copies [] (122 ∷ []) ≡ root_variable sample_optimizer (122 ∷ [])
root_variable-enough_example = root_variable-enough sample_optimizer (122 ∷ []) 3
