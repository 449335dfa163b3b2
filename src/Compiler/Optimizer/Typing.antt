-- ===== src/Compiler/Optimizer/Typing.antt =====
-- Types for the expressions that pkg/compiler/optimizer.go rewrites: its simplifications take
-- `x + 0` for `x`, which is right for integers only, so what it keeps is the meaning of expressions
-- whose operators have two operands of one scalar type.
use glyphlang.Prelude.{
  ℕ, ◌≤◌, ◌^◌, ◌%◌, ◌/◌, ◌≡◌, refl, Bool, ok, err, ◌>>=◌, arith, ◌==◌, Bool-cases, inl, inr, sym,
  subst,
}
use glyphlang.Prelude.Maps.{Str}
use glyphlang.Int64
use glyphlang.Vm.Value.{Value, int, bool, str, Host, Fields, Heap, Fallible}
use glyphlang.Vm.Arith.{
  add_values, sub_values, mul_values, div_values, mod_values, neg_value, pure_op,
}
use glyphlang.Vm.Compare.{
  and_values, or_values, not_value, eq_values, ne_values, lt_values, gt_values, ge_values,
  le_values,
}
use glyphlang.Vm.Control.{variable_value}
use glyphlang.Eval.{eval, literal_meaning, binary_meaning, unary_meaning}
use glyphlang.Ast.{
  int_literal, string_literal, bool_literal, BinOp, add, sub, mul, div, eq, ne, lt, le, gt, ge, and,
  or, mod_op, not_op, neg_op, Expr, literal, variable, binary, unary,
}

pub data Scalar : Type 0 where
  int_type bool_type str_type : Scalar

-- The type of `a op b` for operands of one type, where the machine gives it a value at all.
unfoldable pub result_type : BinOp → Scalar → Scalar
result_type eq t = bool_type
result_type ne t = bool_type
result_type lt t = bool_type
result_type le t = bool_type
result_type gt t = bool_type
result_type ge t = bool_type
result_type add t = t
result_type sub t = t
result_type mul t = t
result_type div t = t
result_type mod_op t = t
result_type and t = t
result_type or t = t

pub data OfType : Scalar → Value → Type 0 where
  of_int : (n : ℕ) → Int64.IsInt64 n → OfType int_type (int n)
  of_bool : (b : Bool) → OfType bool_type (bool b)
  of_str : (s : Str) → OfType str_type (str s)

-- The operands of every operator have one scalar type; a variable has the type of its value.
pub data HasType (locals globals : Fields) : Expr → Scalar → Type 0 where
  of_int_literal :
      (n : ℕ) → Int64.IsInt64 n → HasType locals globals (literal (int_literal n)) int_type
  of_bool_literal : (b : Bool) → HasType locals globals (literal (bool_literal b)) bool_type
  of_string_literal : (s : Str) → HasType locals globals (literal (string_literal s)) str_type
  of_variable :
      {t : Scalar} (name : Str)
      → ((v : Value) → variable_value locals globals name ≡ ok v → OfType t v)
      → HasType locals globals (variable name) t
  of_binary :
      {t : Scalar} (op : BinOp) {l r : Expr}
      → HasType locals globals l t
      → HasType locals globals r t
      → (u : Scalar) → result_type op t ≡ u
      → HasType locals globals (binary op l r) u
  of_negation :
      {e : Expr}
      → HasType locals globals e int_type
      → HasType locals globals (unary neg_op e) int_type
  of_not :
      {e : Expr}
      → HasType locals globals e bool_type
      → HasType locals globals (unary not_op e) bool_type

mod-IsInt64 : (a : ℕ) → Int64.IsInt64 (a % 2 ^ 64)
mod-IsInt64 a = omega arith

neg-IsInt64 : (a : ℕ) → Int64.IsInt64 (Int64.neg a)
unfolding Int64.neg
neg-IsInt64 a = omega arith

magnitude-IsInt64 : (a : ℕ) → Int64.IsInt64 a → Int64.IsInt64 (Int64.magnitude a)
unfolding Int64.magnitude
magnitude-IsInt64 a h = ground arith

div-le : (a b : ℕ) → a / b ≤ a
div-le a b = grind arith

mod-le : (a b : ℕ) → a % b ≤ a
mod-le a b = grind arith

div-IsInt64 : (a b : ℕ) → Int64.IsInt64 a → Int64.IsInt64 (Int64.div a b)
unfolding Int64.div
div-IsInt64 a b h = ground (
  arith,
  magnitude-IsInt64 a h,
  div-le (Int64.magnitude a) (Int64.magnitude b),
  neg-IsInt64 (Int64.magnitude a / Int64.magnitude b),
)

mod_-IsInt64 : (a b : ℕ) → Int64.IsInt64 a → Int64.IsInt64 (Int64.mod_ a b)
unfolding Int64.mod_
mod_-IsInt64 a b h = ground (
  arith,
  magnitude-IsInt64 a h,
  mod-le (Int64.magnitude a) (Int64.magnitude b),
  neg-IsInt64 (Int64.magnitude a % Int64.magnitude b),
)

-- A call that gives a value of the type `t` in the heap `h`, or fails.
abbrev pub Gives : Scalar → Heap → Fallible (Value × Heap) → Type 0
Gives t h (ok r) = OfType t r.0 × (r.1 ≡ h)
Gives t h (err e) = Unit

module _ (host : Host) (h : Heap) where
  -- An operator on two operands of one scalar type leaves the heap alone.
  int_meaning :
      (op : BinOp) (a b : ℕ)
      → Int64.IsInt64 a
      → Int64.IsInt64 b
      → Gives (result_type op int_type) h (binary_meaning host op (int a) (int b) h)
  unfolding binary_meaning result_type pure_op add_values sub_values mul_values eq_values ne_values
      lt_values le_values gt_values ge_values and_values or_values div_values mod_values Int64.add
      Int64.sub Int64.mul
  int_meaning add a b ha hb = (of_int _ (mod-IsInt64 _), refl)
  int_meaning sub a b ha hb = (of_int _ (mod-IsInt64 _), refl)
  int_meaning mul a b ha hb = (of_int _ (mod-IsInt64 _), refl)
  int_meaning div a b ha hb = elim (Bool-cases (b == 0)) [
    | inl e ↦ rw (e, div_values) tt
    | inr e ↦ rw (e, div_values) (of_int _ (div-IsInt64 a b ha), refl)
  ]
  int_meaning mod_op a b ha hb = elim (Bool-cases (b == 0)) [
    | inl e ↦ rw (e, mod_values) tt
    | inr e ↦ rw (e, mod_values) (of_int _ (mod_-IsInt64 a b ha), refl)
  ]
  int_meaning eq a b ha hb = (of_bool _, refl)
  int_meaning ne a b ha hb = (of_bool _, refl)
  int_meaning lt a b ha hb = (of_bool _, refl)
  int_meaning le a b ha hb = (of_bool _, refl)
  int_meaning gt a b ha hb = (of_bool _, refl)
  int_meaning ge a b ha hb = (of_bool _, refl)
  int_meaning and a b ha hb = tt
  int_meaning or a b ha hb = tt

  str_meaning :
      (op : BinOp) (a b : Str)
      → Gives (result_type op str_type) h (binary_meaning host op (str a) (str b) h)
  unfolding binary_meaning result_type pure_op add_values sub_values mul_values eq_values ne_values
      lt_values le_values gt_values ge_values and_values or_values div_values mod_values
  str_meaning add a b = (of_str _, refl)
  str_meaning eq a b = (of_bool _, refl)
  str_meaning ne a b = (of_bool _, refl)
  str_meaning lt a b = (of_bool _, refl)
  str_meaning le a b = (of_bool _, refl)
  str_meaning gt a b = (of_bool _, refl)
  str_meaning ge a b = (of_bool _, refl)
  str_meaning _ a b = tt

  bool_meaning :
      (op : BinOp) (a b : Bool)
      → Gives (result_type op bool_type) h (binary_meaning host op (bool a) (bool b) h)
  unfolding binary_meaning result_type pure_op add_values sub_values mul_values eq_values ne_values
      lt_values le_values gt_values ge_values and_values or_values div_values mod_values
  bool_meaning eq a b = (of_bool _, refl)
  bool_meaning ne a b = (of_bool _, refl)
  bool_meaning and a b = (of_bool _, refl)
  bool_meaning or a b = (of_bool _, refl)
  bool_meaning _ a b = tt

  binary_meaning-Gives :
      (op : BinOp) {t : Scalar} {a b : Value}
      → OfType t a
      → OfType t b
      → Gives (result_type op t) h (binary_meaning host op a b h)
  binary_meaning-Gives op (of_int a ha) (of_int b hb) = int_meaning op a b ha hb
  binary_meaning-Gives op (of_bool a) (of_bool b) = bool_meaning op a b
  binary_meaning-Gives op (of_str a) (of_str b) = str_meaning op a b

  pub Gives-ok :
      {t : Scalar} {r : Fallible (Value × Heap)} {v : Value × Heap}
      → Gives t h r
      → r ≡ ok v
      → OfType t v.0 × (v.1 ≡ h)
  Gives-ok {t} g e = rw e at g

pub Gives-bind :
    {t : Scalar} (u : Scalar) (h : Heap) (x : Fallible (Value × Heap))
    (next : Value × Heap → Fallible (Value × Heap))
    → Gives t h x
    → ((a : Value) → OfType t a → Gives u h (next (a, h)))
    → Gives u h (x >>= next)
Gives-bind u h (ok r) next g then_gives =
    subst (λ h'. Gives u h (next (r.0, h'))) (sym g.1) (then_gives r.0 g.0)
Gives-bind u h (err e) next g then_gives = tt

variable-Gives :
    {t : Scalar} (h : Heap) (r : Fallible Value)
    → ((v : Value) → r ≡ ok v → OfType t v)
    → Gives t h (r >>= λ v. ok (v, h))
variable-Gives h (ok v) typed = (typed v refl, refl)
variable-Gives h (err e) typed = tt

negation-Gives :
    (host : Host) (h : Heap) {a : Value}
    → OfType int_type a
    → Gives int_type h (neg_value host a >>= λ v. ok (v, h))
unfolding neg_value
negation-Gives host h (of_int n small) = (of_int _ (neg-IsInt64 n), refl)

not-Gives :
    (h : Heap) {a : Value} → OfType bool_type a → Gives bool_type h (not_value a >>= λ v. ok (v, h))
unfolding not_value
not-Gives h (of_bool b) = (of_bool _, refl)

module _ (host : Host) (locals globals : Fields) where
  -- A typed expression has a value of its type, in the heap that it began with, or fails.
  pub HasType-Gives :
      {e : Expr} {t : Scalar}
      → HasType locals globals e t
      → (h : Heap) → Gives t h (eval host locals globals e h)
  unfolding eval literal_meaning unary_meaning
  HasType-Gives (of_int_literal n small) h = (of_int n small, refl)
  HasType-Gives (of_bool_literal b) h = (of_bool b, refl)
  HasType-Gives (of_string_literal s) h = (of_str s, refl)
  HasType-Gives (of_variable name typed) h =
      variable-Gives h (variable_value locals globals name) typed
  HasType-Gives (of_binary op {l} {r} tl tr u same) h =
      subst (λ w. Gives w h (eval host locals globals (binary op l r) h)) same
        (Gives-bind _ h (eval host locals globals l h) _ (HasType-Gives tl h) (λ a ta.
          Gives-bind _ h (eval host locals globals r h) _ (HasType-Gives tr h)
            (λ b tb. binary_meaning-Gives host h op ta tb)))
  HasType-Gives (of_negation {e} te) h =
      Gives-bind _ h (eval host locals globals e h) _ (HasType-Gives te h)
        (λ a ta. negation-Gives host h ta)
  HasType-Gives (of_not {e} te) h =
      Gives-bind _ h (eval host locals globals e h) _ (HasType-Gives te h) (λ a ta. not-Gives h ta)
