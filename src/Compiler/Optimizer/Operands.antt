-- ===== src/Compiler/Optimizer/Operands.antt =====
-- pkg/compiler/optimizer.go: foldBinaryOp, on operands that have been optimized.
use glyphlang.Prelude.{
  ℕ, ◌≡◌, refl, sym, ◌∙◌, subst, ap, ==_iff, Bool, true, false, ◌&&◌, Option, some, none, ok, arith,
  if◌then◌else◌,
}
use mathlib.Core.Option
use mathlib.Core.Path.{subst₂}
use glyphlang.Vm.Value.{Value, int, Host, Fields, Heap, Fallible}
use glyphlang.Eval.{eval, literal_meaning, binary_meaning}
use glyphlang.Ast.{Literal, int_literal, string_literal, bool_literal, BinOp, Expr, literal, binary}
use glyphlang.Compiler.Optimizer.{
  Level, is_aggressive, folded_literal, fold_literals, algebraic_simplify, identity_result,
}
use glyphlang.Compiler.Optimizer.Typing.{Scalar, OfType, of_int, of_bool, of_str}
use glyphlang.Compiler.Optimizer.Folding.{Folds, literals-Folds, identity-Folds}
use glyphlang.Compiler.Optimizer.Simplify.{
  Alike, alike_int, alike_bool, alike_str, Keeps, simplify_left-Keeps, simplify_right-Keeps,
  eval-binary,
}
use glyphlang.Compiler.Optimizer.{
  exprs_equal, is_provably_integer, identity_fold, fold_operands, fold_binary, as_literal, or_expr,
}

equal_ints :
    (host : Host) (l r : Expr)
    → exprs_equal host l r ≡ true
    → is_provably_integer l ≡ true
    → (n : ℕ) × (l ≡ literal (int_literal n)) × (r ≡ literal (int_literal n))
unfolding exprs_equal is_provably_integer
equal_ints host (literal (int_literal m)) (literal (int_literal n)) same is_int =
    (m, refl, ap (λ k. literal (int_literal k)) (sym ((==_iff m n).0 same)))
equal_ints host l r same is_int = cc

as_literal-eq : (e : Expr) {l : Literal} → as_literal e ≡ some l → e ≡ literal l
unfolding as_literal
as_literal-eq (literal l) q = cc
as_literal-eq e q = cc

OfType-Alike :
    {t : Scalar} (lit : Literal) {v w : Value}
    → OfType t w
    → w ≡ literal_meaning lit
    → OfType t v
    → Alike lit v
unfolding literal_meaning
OfType-Alike (int_literal m) (of_int a ha) q (of_int n hn) = alike_int m n hn
OfType-Alike (bool_literal b) (of_bool a) q (of_bool c) = alike_bool b c
OfType-Alike (string_literal s) (of_str a) q (of_str t) = alike_str s t
OfType-Alike lit (of_int a ha) q tv = cc
OfType-Alike lit (of_bool a) q tv = cc
OfType-Alike lit (of_str a) q tv = cc

-- The optimized operands, of one scalar type, with the values `a` and `b`.
module _ (host : Host) (locals globals : Fields) (level : Level) (h : Heap) (op : BinOp) where
  fold_literals-keeps :
      (x y : Literal) (w : Value × Heap)
      → binary_meaning host op (literal_meaning x) (literal_meaning y) h ≡ ok w
      → eval host locals globals (fold_literals host op x y) h ≡ ok w
  unfolding fold_literals eval
  fold_literals-keeps x y w q =
      from_fold (folded_literal host op x y) (literals-Folds host h op x y)
    where
      from_fold :
          (o : Option Literal)
          → Folds h o (binary_meaning host op (literal_meaning x) (literal_meaning y) h)
          → eval host locals globals
              (elim o [ some l ↦ literal l | none ↦ binary op (literal x) (literal y) ])
              h
            ≡ ok w
      from_fold (some l) same = sym same ∙ q
      from_fold none same = q

  module _ {t : Scalar} (l r : Expr) (a b : Value) (ta : OfType t a) (tb : OfType t b)
      (el : eval host locals globals l h ≡ ok (a, h))
      (er : eval host locals globals r h ≡ ok (b, h)) (w : Value × Heap)
      (q : binary_meaning host op a b h ≡ ok w) where
    -- The value of a literal operand.
    literal_value_of :
        (e : Expr) (v : Value) {lit : Literal}
        → as_literal e ≡ some lit
        → eval host locals globals e h ≡ ok (v, h)
        → v ≡ literal_meaning lit
    unfolding eval
    literal_value_of e v {lit} is_lit ev =
        let ev' : eval host locals globals (literal lit) h ≡ ok (v, h) =
          rw (as_literal-eq e is_lit) at ev in
        cc

    or_expr-Keeps :
        (o : Option Expr) (e : Expr)
        → Keeps host locals globals level h o (binary_meaning host op a b h)
        → eval host locals globals e h ≡ ok w
        → eval host locals globals (or_expr o e) h ≡ ok w
    unfolding or_expr
    or_expr-Keeps (some x) e keeps otherwise = keeps w q
    or_expr-Keeps none e keeps otherwise = otherwise

    kept : eval host locals globals (binary op l r) h ≡ ok w
    kept = eval-binary host locals globals level h op l r a b el er ∙ q

    fold_operands-keeps :
        (x y : Option Literal)
        → as_literal l ≡ x
        → as_literal r ≡ y
        → eval host locals globals (fold_operands host level op l r x y) h ≡ ok w
    unfolding fold_operands
    fold_operands-keeps (some x) (some y) ix iy = fold_literals-keeps x y w (
        subst₂ (λ u v. binary_meaning host op u v h ≡ ok w) (literal_value_of l a ix el)
          (literal_value_of r b iy er) q)
    fold_operands-keeps (some x) none ix iy =
        or_expr-Keeps (algebraic_simplify host level op x r true) (binary op l r)
          (subst
            (λ v.
              Keeps host locals globals level h (algebraic_simplify host level op x r true)
                (binary_meaning host op v b h))
            (sym (literal_value_of l a ix el))
            (simplify_left-Keeps host locals globals level h r op
              (OfType-Alike x ta (literal_value_of l a ix el) tb) er))
          kept
    fold_operands-keeps none (some y) ix iy =
        or_expr-Keeps (algebraic_simplify host level op y l false) (binary op l r)
          (subst
            (λ v.
              Keeps host locals globals level h (algebraic_simplify host level op y l false)
                (binary_meaning host op a v h))
            (sym (literal_value_of r b iy er))
            (simplify_right-Keeps host locals globals level h l op
              (OfType-Alike y tb (literal_value_of r b iy er) ta) el))
          kept
    fold_operands-keeps none none ix iy = kept

    Folds-Keeps :
        (o : Option Literal) (r : Fallible (Value × Heap))
        → Folds h o r
        → Keeps host locals globals level h (Option.map literal o) r
    unfolding eval
    Folds-Keeps (some lit) r same = λ v e. sym same ∙ e
    Folds-Keeps none r same = tt

    identity-Keeps :
        (test : Bool)
        → (test ≡ true
            → (is_aggressive level && exprs_equal host l r && is_provably_integer l) ≡ true)
        → Keeps host locals globals level h
            (if test then Option.map literal (identity_result op) else none)
            (binary_meaning host op a b h)
    unfolding as_literal literal_meaning
    identity-Keeps true holds =
        let (n, is_l, is_r) =
          equal_ints host l r (ground (arith, holds refl)) (ground (arith, holds refl)) in
        subst₂
          (λ u v.
            Keeps host locals globals level h (Option.map literal (identity_result op))
              (binary_meaning host op u v h))
          (sym (literal_value_of l a (ap as_literal is_l) el))
          (sym (literal_value_of r b (ap as_literal is_r) er))
          (Folds-Keeps (identity_result op) (binary_meaning host op (int n) (int n) h)
            (identity-Folds host h op n))
    identity-Keeps false holds = tt

    pub fold_binary-keeps : eval host locals globals (fold_binary host level op l r) h ≡ ok w
    unfolding fold_binary identity_fold
    fold_binary-keeps =
        or_expr-Keeps _ _
          (identity-Keeps (is_aggressive level && exprs_equal host l r && is_provably_integer l)
            (λ e. e))
          (fold_operands-keeps (as_literal l) (as_literal r) refl refl)
