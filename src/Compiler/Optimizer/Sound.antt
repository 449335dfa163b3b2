-- ===== src/Compiler/Optimizer/Sound.antt =====
-- pkg/compiler/optimizer.go: OptimizeExpression keeps the meaning of expressions.
use glyphlang.Prelude.{
  ℕ, ◌≡◌, refl, sym, ◌∙◌, ap, none, ok, ◌>>=◌, >>=-eq-ok, subst, false, List, arith, Option-cases,
  inl, inr,
}
use glyphlang.Prelude.Maps.{Str, lookup}
use glyphlang.Vm.Value.{Value, Host, Fields, Heap, Fallible}
use glyphlang.Vm.Control.{variable_value}
use glyphlang.Eval.{eval, eval_fields, eval_elements, binary_meaning, literal_meaning}
use glyphlang.Vm.Arith.{pure_op, add_values, sub_values, mul_values, div_values, mod_values}
use glyphlang.Vm.Compare.{
  eq_values, ne_values, lt_values, gt_values, le_values, ge_values, and_values, or_values,
  values_equal,
}
use glyphlang.Ast.{
  Literal, float_literal, add, sub, mul, div, eq, ne, lt, le, gt, ge, and, or, mod_op, BinOp, UnOp,
  Expr, literal, variable, binary, unary, object, array, field_access, array_index, await, try,
  ObjectFields, no_fields, field, Elements, no_elements, element,
}
use glyphlang.Compiler.Optimizer.{
  Optimizer, Level, opt_none, opt_basic, opt_aggressive, optimize, optimize_fields,
  optimize_elements, optimize_expression, optimize_variable, root_variable, as_literal, fold_binary,
  identity_fold, fold_operands, fold_literals, folded_literal, fold_floats, exprs_equal,
  is_provably_integer,
}
use glyphlang.Compiler.Optimizer.Copies.{Agrees, root_variable-value}
use glyphlang.Compiler.Optimizer.Typing.{
  Scalar, OfType, HasType, of_int_literal, of_bool_literal, of_string_literal, of_variable,
  of_binary, of_negation, of_not, HasType-Gives, Gives-ok,
}
use glyphlang.Compiler.Optimizer.Operands.{fold_binary-keeps}

-- Where the optimizer rewrites an operator with a literal operand, the operands have one scalar
-- type, or both are float literals. Where neither operand becomes a literal they may be anything.
mutual
  pub data IsTyped (host : Host) (locals globals : Fields) (o : Optimizer) : Expr → Type 0 where
    scalar : {e : Expr} {t : Scalar} → HasType locals globals e t → IsTyped host locals globals o e
    any_literal : (l : Literal) → IsTyped host locals globals o (literal l)
    any_variable : (name : Str) → IsTyped host locals globals o (variable name)
    any_unary : (op : UnOp) (e : Expr) → IsTyped host locals globals o (unary op e)
    any_index : (a i : Expr) → IsTyped host locals globals o (array_index a i)
    any_await : (e : Expr) → IsTyped host locals globals o (await e)
    any_try : (e : Expr) → IsTyped host locals globals o (try e)
    float_operands :
        (op : BinOp) (a b : ℕ)
        → IsTyped host locals globals o
            (binary op (literal (float_literal a)) (literal (float_literal b)))
    any_operands :
        (op : BinOp) {l r : Expr}
        → IsTyped host locals globals o l
        → IsTyped host locals globals o r
        → as_literal (optimize host o l) ≡ none
        → as_literal (optimize host o r) ≡ none
        → IsTyped host locals globals o (binary op l r)
    of_object :
        {fs : ObjectFields}
        → AreTypedFields host locals globals o fs
        → IsTyped host locals globals o (object fs)
    of_array :
        {es : Elements}
        → AreTyped host locals globals o es
        → IsTyped host locals globals o (array es)
    of_field :
        {e : Expr} (name : Str)
        → IsTyped host locals globals o e
        → IsTyped host locals globals o (field_access e name)

  pub data AreTypedFields (host : Host) (locals globals : Fields) (o : Optimizer)
      : ObjectFields → Type 0 where
    none_typed : AreTypedFields host locals globals o no_fields
    field_typed :
        (k : Str) {e : Expr} {fs : ObjectFields}
        → IsTyped host locals globals o e
        → AreTypedFields host locals globals o fs
        → AreTypedFields host locals globals o (field k e fs)

  pub data AreTyped (host : Host) (locals globals : Fields) (o : Optimizer)
      : Elements → Type 0 where
    no_elements_typed : AreTyped host locals globals o no_elements
    element_typed :
        {e : Expr} {es : Elements}
        → IsTyped host locals globals o e
        → AreTyped host locals globals o es
        → AreTyped host locals globals o (element e es)

not_integer : (e : Expr) → as_literal e ≡ none → is_provably_integer e ≡ false
unfolding as_literal is_provably_integer
not_integer (literal l) q = cc
not_integer e q = refl

bind-keeps :
    {A B : Type 0} {w : B} (x x' : Fallible A) (f g : A → Fallible B)
    → ((a : A) → x ≡ ok a → x' ≡ ok a)
    → ((a : A) → f a ≡ ok w → g a ≡ ok w)
    → (x >>= f) ≡ ok w
    → (x' >>= g) ≡ ok w
bind-keeps x x' f g keeps next e =
    let (a, ex, rest) = >>=-eq-ok x f e in rw (keeps a ex) (next a rest)

module _ (host : Host) (locals globals : Fields) where
  -- Where `e` has a value, `e'` has that value, in the same heap.
  abbrev pub Refines : Expr → Expr → Type 0
  Refines e e' =
      (h : Heap) (w : Value × Heap)
      → eval host locals globals e h ≡ ok w
      → eval host locals globals e' h ≡ ok w

  -- The value of a typed expression, which leaves the heap alone.
  typed_value :
      {e : Expr} {t : Scalar}
      → HasType locals globals e t
      → (h : Heap) {w : Value × Heap} → eval host locals globals e h ≡ ok w
      → (v : Value) × OfType t v × (w ≡ (v, h))
  typed_value typed h {w} e =
      let (tv, same) = Gives-ok host h (HasType-Gives host locals globals typed h) e in
      (w.0, tv, ap (λ k. (w.0, k)) same)

  module _ (o : Optimizer) (agrees : Agrees locals globals o) where
    variable-Refines : (name : Str) → Refines (variable name) (optimize_variable o name)
    unfolding optimize_variable eval
    variable-Refines name h w e =
        let root : (variable_value locals globals (root_variable o name) >>= λ v. ok (v, h))
            ≡ ok w =
          ap (λ r. r >>= λ v. ok (v, h)) (root_variable-value locals globals o agrees name) ∙ e in
        elim (Option-cases (lookup (root_variable o name) o.constants)) [
          | inl unknown ↦ rw (unknown, optimize_variable) root
          | inr (lit, known) ↦
              rw (known, optimize_variable)
                (sym (ap (λ r. r >>= λ v. ok (v, h)) (agrees.constant _ lit known)) ∙ root)
        ]

    -- Two float literals are folded as the machine computes, or left alone.
    floats-Refines :
        (op : BinOp) (a b : ℕ)
        → Refines
            (binary op (literal (float_literal a)) (literal (float_literal b)))
            (optimize host o (binary op (literal (float_literal a)) (literal (float_literal b))))
    unfolding optimize fold_binary identity_fold fold_operands fold_literals folded_literal
        fold_floats as_literal is_provably_integer exprs_equal eval literal_meaning binary_meaning
        pure_op add_values sub_values mul_values div_values mod_values eq_values ne_values lt_values
        gt_values le_values ge_values and_values or_values values_equal
    floats-Refines add a b h w e = ground arith
    floats-Refines sub a b h w e = ground arith
    floats-Refines mul a b h w e = ground arith
    floats-Refines div a b h w e = ground arith
    floats-Refines mod_op a b h w e = ground arith
    floats-Refines eq a b h w e = ground arith
    floats-Refines ne a b h w e = ground arith
    floats-Refines lt a b h w e = ground arith
    floats-Refines le a b h w e = ground arith
    floats-Refines gt a b h w e = ground arith
    floats-Refines ge a b h w e = ground arith
    floats-Refines and a b h w e = ground arith
    floats-Refines or a b h w e = ground arith

    binary-Refines :
        (op : BinOp) {l r : Expr} {t : Scalar}
        → HasType locals globals l t
        → HasType locals globals r t
        → Refines l (optimize host o l)
        → Refines r (optimize host o r)
        → Refines
            (binary op l r)
            (fold_binary host o.level op (optimize host o l) (optimize host o r))
    unfolding eval
    binary-Refines op {l} {r} tl tr keep_l keep_r h w e =
        let (wl, el, rest) = >>=-eq-ok (eval host locals globals l h) _ e in
        let (a, ta, same_l) = typed_value tl h el in
        let (wr, er, q) =
          >>=-eq-ok (eval host locals globals r h) (λ x. binary_meaning host op a x.0 x.1)
            (subst
              (λ (y : Value × Heap).
                (eval host locals globals r y.1 >>= λ x. binary_meaning host op y.0 x.0 x.1) ≡ ok w)
              same_l rest) in
        let (b, tb, same_r) = typed_value tr h er in
        fold_binary-keeps host locals globals o.level h op (optimize host o l) (optimize host o r) a
          b ta tb (keep_l h wl el ∙ ap ok same_l) (keep_r h wr er ∙ ap ok same_r) w
          (subst (λ (y : Value × Heap). binary_meaning host op a y.0 y.1 ≡ ok w) same_r q)

    HasType-Refines :
        {e : Expr} {t : Scalar} → HasType locals globals e t → Refines e (optimize host o e)
    unfolding optimize
    HasType-Refines (of_int_literal n small) h w e = e
    HasType-Refines (of_bool_literal b) h w e = e
    HasType-Refines (of_string_literal s) h w e = e
    HasType-Refines (of_variable name typed) h w e = variable-Refines name h w e
    HasType-Refines (of_binary op tl tr u same) h w e =
        binary-Refines op tl tr (HasType-Refines tl) (HasType-Refines tr) h w e
    HasType-Refines (of_negation te) h w e = e
    HasType-Refines (of_not te) h w e = e

    -- An operator is left as it is where neither operand has become a literal.
    open_operands :
        (op : BinOp) (l r : Expr)
        → as_literal l ≡ none
        → as_literal r ≡ none
        → fold_binary host o.level op l r ≡ binary op l r
    unfolding fold_binary identity_fold
    open_operands op l r nl nr = ground (arith, not_integer l nl)

    mutual
      unfolding eval optimize

      IsTyped-Refines : {e : Expr} → IsTyped host locals globals o e → Refines e (optimize host o e)
      IsTyped-Refines (scalar typed) h w e = HasType-Refines typed h w e
      IsTyped-Refines (any_literal l) h w e = e
      IsTyped-Refines (any_variable name) h w e = variable-Refines name h w e
      IsTyped-Refines (any_unary op x) h w e = e
      IsTyped-Refines (any_index a i) h w e = e
      IsTyped-Refines (any_await x) h w e = e
      IsTyped-Refines (any_try x) h w e = e
      IsTyped-Refines (any_operands op {l} {r} tl tr nl nr) h w e =
          rw (open_operands op (optimize host o l) (optimize host o r) nl nr) (
            bind-keeps (eval host locals globals l h)
              (eval host locals globals (optimize host o l) h) _ _ (IsTyped-Refines tl h)
              (λ a.
                bind-keeps (eval host locals globals r a.1)
                  (eval host locals globals (optimize host o r) a.1) _ _ (IsTyped-Refines tr a.1)
                  (λ b q. q))
              e)
      IsTyped-Refines (float_operands op a b) h w e = floats-Refines op a b h w e
      IsTyped-Refines (of_object {fs} typed) h w e =
          bind-keeps (eval_fields host locals globals fs h)
            (eval_fields host locals globals (optimize_fields host o fs) h) _ _
            (AreTypedFields-Refines typed h) (λ a q. q) e
      IsTyped-Refines (of_array {es} typed) h w e =
          bind-keeps (eval_elements host locals globals es h)
            (eval_elements host locals globals (optimize_elements host o es) h) _ _
            (AreTyped-Refines typed h) (λ a q. q) e
      IsTyped-Refines (of_field {e = x} name typed) h w e =
          bind-keeps (eval host locals globals x h) (eval host locals globals (optimize host o x) h)
            _ _ (IsTyped-Refines typed h) (λ a q. q) e

      AreTypedFields-Refines :
          {fs : ObjectFields}
          → AreTypedFields host locals globals o fs
          → (h : Heap) (w : Fields × Heap) → eval_fields host locals globals fs h ≡ ok w
          → eval_fields host locals globals (optimize_fields host o fs) h ≡ ok w
      AreTypedFields-Refines none_typed h w e = e
      AreTypedFields-Refines (field_typed k {e = x} {fs} tx ts) h w e =
          bind-keeps (eval host locals globals x h) (eval host locals globals (optimize host o x) h)
            _ _ (IsTyped-Refines tx h)
            (λ a.
              bind-keeps (eval_fields host locals globals fs a.1)
                (eval_fields host locals globals (optimize_fields host o fs) a.1) _ _
                (AreTypedFields-Refines ts a.1) (λ b q. q))
            e

      AreTyped-Refines :
          {es : Elements}
          → AreTyped host locals globals o es
          → (h : Heap) (w : List Value × Heap) → eval_elements host locals globals es h ≡ ok w
          → eval_elements host locals globals (optimize_elements host o es) h ≡ ok w
      AreTyped-Refines no_elements_typed h w e = e
      AreTyped-Refines (element_typed {e = x} {es} tx ts) h w e =
          bind-keeps (eval host locals globals x h) (eval host locals globals (optimize host o x) h)
            _ _ (IsTyped-Refines tx h)
            (λ a.
              bind-keeps (eval_elements host locals globals es a.1)
                (eval_elements host locals globals (optimize_elements host o es) a.1) _ _
                (AreTyped-Refines ts a.1) (λ b q. q))
            e

-- Where an expression has a value and is typed, so that operators with a literal operand have
-- operands of one type, integers, booleans or strings, or two float literals, what
-- OptimizeExpression makes of it at any level has the same value in the same heap, if what the
-- optimizer has noted of constants and copies is true of the variables. An operator with a float
-- literal and another operand is left out: x * 0.0 becomes the integer 0.
pub optimize_expression-eval :
    (host : Host) (locals globals : Fields) (o : Optimizer)
    → Agrees locals globals o
    → (e : Expr) → IsTyped host locals globals o e
    → (h : Heap) (w : Value × Heap) → eval host locals globals e h ≡ ok w
    → eval host locals globals (optimize_expression host o e) h ≡ ok w
unfolding optimize_expression
optimize_expression-eval host locals globals o agrees e typed = by_level o.level
  where
    by_level :
        (level : Level)
        → Refines host locals globals e (elim level [
          | opt_none ↦ e
          | opt_basic ↦ optimize host o e
          | opt_aggressive ↦ optimize host o e
        ])
    by_level opt_none = λ h w q. q
    by_level opt_basic = IsTyped-Refines host locals globals o agrees typed
    by_level opt_aggressive = IsTyped-Refines host locals globals o agrees typed
