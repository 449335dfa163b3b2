-- ===== src/Compiler/Optimizer.antt =====
-- pkg/compiler/optimizer.go: OptimizeExpression with its constant folding, its algebraic
-- simplifications, and its propagation of constants and copies. The float64 arithmetic of the
-- compiler is that of the machine, a `Host`. The passes over statements are not modelled.

use glyphlang.Prelude.{
  ℕ, zero, suc, Bool, true, false, not, ◌&&◌, ◌||◌, List, [], ◌∷◌, Option, some, none, ◌==◌,
  if◌then◌else◌, length,
}
pub mod Copies
pub mod Typing
pub mod Folding
pub mod Simplify
pub mod Operands
pub mod Sound
use mathlib.Core.Option
use glyphlang.Prelude.Maps.{Str, str_eq, lookup}
use glyphlang.Int64
use glyphlang.Vm.Value.{Host}
use glyphlang.Ast.{
  Literal, int_literal, string_literal, bool_literal, float_literal, null_literal, BinOp, add, sub,
  mul, div, eq, ne, lt, le, gt, ge, and, or, mod_op, Expr, literal, variable, binary, unary, object,
  array, field_access, array_index, await, try, ObjectFields, no_fields, field, Elements,
  no_elements, element,
}

-- OptimizationLevel
pub data Level : Type 0 where
  opt_none opt_basic opt_aggressive : Level

unfoldable pub is_aggressive : Level → Bool
is_aggressive opt_aggressive = true
is_aggressive _ = false

-- Optimizer
pub record Optimizer : Type 0 where
  pub level : Level
  pub constants : List (Str × Literal)
  pub expressions : List (Str × Str)
  pub copies : List (Str × Str)

-- NewOptimizer
unfoldable pub new_optimizer : Level → Optimizer
new_optimizer level = record { level = level; constants = []; expressions = []; copies = [] }

unfoldable pub contains : Str → List Str → Bool
contains name [] = false
contains name (seen ∷ rest) = str_eq seen name || contains name rest

-- The loop that follows a chain of copies until it ends or comes round to a name again.
unfoldable pub follow : ℕ → List (Str × Str) → List Str → Str → Str
follow zero copies visited name = name
follow (suc fuel) copies visited name = elim (contains name visited) [
  | true ↦ name
  | false ↦ elim (lookup name copies) [
    | some target ↦ follow fuel copies (name ∷ visited) target
    | none ↦ name
  ]
]

-- The case of a variable, in OptimizeExpression.
unfoldable pub root_variable : Optimizer → Str → Str
root_variable o name = follow (suc (length o.copies)) o.copies [] name

unfoldable pub optimize_variable : Optimizer → Str → Expr
optimize_variable o name = elim (lookup (root_variable o name) o.constants) [
  | some lit ↦ literal lit
  | none ↦ variable (root_variable o name)
]

-- lit, ok := e.(*ast.LiteralExpr)
unfoldable pub as_literal : Expr → Option Literal
as_literal (literal l) = some l
as_literal _ = none

-- isProvablyIntegerExpr
unfoldable pub is_provably_integer : Expr → Bool
is_provably_integer (literal (int_literal n)) = true
is_provably_integer _ = false

unfoldable pub bool_eq : Bool → Bool → Bool
bool_eq a b = (a && b) || (not a && not b)

-- What `x op x` is for integers.
unfoldable pub identity_result : BinOp → Option Literal
identity_result sub = some (int_literal 0)
identity_result eq = some (bool_literal true)
identity_result ne = some (bool_literal false)
identity_result le = some (bool_literal true)
identity_result ge = some (bool_literal true)
identity_result lt = some (bool_literal false)
identity_result gt = some (bool_literal false)
identity_result _ = none

-- `e`, if it is not nil, and `otherwise` if it is.
unfoldable pub or_expr : Option Expr → Expr → Expr
or_expr (some e) otherwise = e
or_expr none otherwise = otherwise

module _ (host : Host) where
  open host use {
    float_add, float_sub, float_mul, float_div, float_mod, float_eq, float_lt, float_le,
  }

  unfoldable pub literals_equal : Literal → Literal → Bool
  literals_equal (int_literal a) (int_literal b) = a == b
  literals_equal (float_literal a) (float_literal b) = float_eq a b
  literals_equal (bool_literal a) (bool_literal b) = bool_eq a b
  literals_equal (string_literal a) (string_literal b) = str_eq a b
  literals_equal null_literal null_literal = true
  literals_equal _ _ = false

  -- foldLiteralBinaryOp on two integers; `none` is noFold.
  unfoldable pub fold_ints : BinOp → ℕ → ℕ → Option Literal
  fold_ints add a b = some (int_literal (Int64.add a b))
  fold_ints sub a b = some (int_literal (Int64.sub a b))
  fold_ints mul a b = some (int_literal (Int64.mul a b))
  fold_ints div a b = if b == 0 then none else some (int_literal (Int64.div a b))
  fold_ints mod_op a b = if b == 0 then none else some (int_literal (Int64.mod_ a b))
  fold_ints eq a b = some (bool_literal (a == b))
  fold_ints ne a b = some (bool_literal (not (a == b)))
  fold_ints lt a b = some (bool_literal (Int64.lt a b))
  fold_ints le a b = some (bool_literal (Int64.le a b))
  fold_ints gt a b = some (bool_literal (Int64.lt b a))
  fold_ints ge a b = some (bool_literal (Int64.le b a))
  fold_ints and a b = none
  fold_ints or a b = none

  -- foldLiteralBinaryOp on two floats. The bit pattern of the float 0 is 0.
  unfoldable pub fold_floats : BinOp → ℕ → ℕ → Option Literal
  fold_floats add a b = some (float_literal (float_add a b))
  fold_floats sub a b = some (float_literal (float_sub a b))
  fold_floats mul a b = some (float_literal (float_mul a b))
  fold_floats div a b = if float_eq b 0 then none else some (float_literal (float_div a b))
  fold_floats mod_op a b = if float_eq b 0 then none else some (float_literal (float_mod a b))
  fold_floats eq a b = some (bool_literal (float_eq a b))
  fold_floats ne a b = some (bool_literal (not (float_eq a b)))
  fold_floats lt a b = some (bool_literal (float_lt a b))
  fold_floats le a b = some (bool_literal (float_le a b))
  fold_floats gt a b = some (bool_literal (float_lt b a))
  fold_floats ge a b = some (bool_literal (float_le b a))
  fold_floats and a b = none
  fold_floats or a b = none

  -- foldLiteralBinaryOp on two Booleans
  unfoldable pub fold_bools : BinOp → Bool → Bool → Option Literal
  fold_bools and a b = some (bool_literal (a && b))
  fold_bools or a b = some (bool_literal (a || b))
  fold_bools eq a b = some (bool_literal (bool_eq a b))
  fold_bools ne a b = some (bool_literal (not (bool_eq a b)))
  fold_bools _ a b = none

  unfoldable pub folded_literal : BinOp → Literal → Literal → Option Literal
  folded_literal op (int_literal a) (int_literal b) = fold_ints op a b
  folded_literal op (float_literal a) (float_literal b) = fold_floats op a b
  folded_literal op (bool_literal a) (bool_literal b) = fold_bools op a b
  folded_literal op _ _ = none

  -- foldLiteralBinaryOp
  unfoldable pub fold_literals : BinOp → Literal → Literal → Expr
  unfolding folded_literal fold_ints fold_floats fold_bools
  fold_literals op a b = elim (folded_literal op a b) [
    | some l ↦ literal l
    | none ↦ binary op (literal a) (literal b)
  ]

  -- isZero, isOne and isTwo of algebraicSimplify, with `bits` the float of that number
  unfoldable pub is_number : ℕ → ℕ → Literal → Bool
  is_number n bits (int_literal a) = a == n
  is_number n bits (float_literal a) = float_eq a bits
  is_number n bits _ = false

  unfoldable pub is_bool : Bool → Literal → Bool
  is_bool wanted (bool_literal b) = bool_eq wanted b
  is_bool wanted _ = false

  abbrev is_zero : Literal → Bool
  is_zero = is_number 0 0

  abbrev is_one : Literal → Bool
  is_one = is_number 1 0x3FF0000000000000

  abbrev is_two : Literal → Bool
  is_two = is_number 2 0x4000000000000000

  -- algebraicSimplify; `on_left` says that the literal is the left operand, `x` is the other one.
  unfoldable pub algebraic_simplify : Level → BinOp → Literal → Expr → Bool → Option Expr
  unfolding is_number is_bool
  algebraic_simplify level add lit x on_left = if is_zero lit then some x else none
  algebraic_simplify level sub lit x on_left = if not on_left && is_zero lit then some x else none
  algebraic_simplify level mul lit x on_left =
      if is_zero lit
      then some (literal (int_literal 0))
      else if is_one lit
      then some x
      else if is_two lit && is_aggressive level
      then some (binary add x x)
      else none
  algebraic_simplify level div lit x on_left = if not on_left && is_one lit then some x else none
  algebraic_simplify level and lit x on_left =
      if is_bool true lit
      then some x
      else if is_bool false lit
      then some (literal (bool_literal false))
      else none
  algebraic_simplify level or lit x on_left =
      if is_bool true lit
      then some (literal (bool_literal true))
      else if is_bool false lit
      then some x
      else none
  algebraic_simplify level _ lit x on_left = none

  -- areExprsEqual
  unfoldable pub exprs_equal : Expr → Expr → Bool
  unfolding literals_equal
  exprs_equal (variable a) (variable b) = str_eq a b
  exprs_equal (literal a) (literal b) = literals_equal a b
  exprs_equal _ _ = false

  -- The identities of foldBinaryOp; `none` where no case applies.
  unfoldable pub identity_fold : Level → BinOp → Expr → Expr → Option Expr
  identity_fold level op l r =
      if is_aggressive level && exprs_equal l r && is_provably_integer l
      then Option.map literal (identity_result op)
      else none

  -- foldBinaryOp after the identities, by which operands are literals
  unfoldable pub fold_operands :
      Level → BinOp → Expr → Expr → Option Literal → Option Literal → Expr
  unfolding fold_literals algebraic_simplify or_expr
  fold_operands level op l r (some a) (some b) = fold_literals op a b
  fold_operands level op l r (some a) none =
      or_expr (algebraic_simplify level op a r true) (binary op l r)
  fold_operands level op l r none (some b) =
      or_expr (algebraic_simplify level op b l false) (binary op l r)
  fold_operands level op l r none none = binary op l r

  -- foldBinaryOp, on operands that are optimized
  unfoldable pub fold_binary : Level → BinOp → Expr → Expr → Expr
  unfolding identity_fold fold_operands or_expr
  fold_binary level op l r =
      or_expr (identity_fold level op l r)
        (fold_operands level op l r (as_literal l) (as_literal r))

  module _ (o : Optimizer) where
    unfoldable mutual
      -- The switch of OptimizeExpression.
      pub optimize : Expr → Expr
      optimize (literal l) = literal l
      optimize (variable name) = optimize_variable o name
      optimize (binary op l r) = fold_binary o.level op (optimize l) (optimize r)
      optimize (unary op e) = unary op e
      optimize (object fs) = object (optimize_fields fs)
      optimize (array es) = array (optimize_elements es)
      optimize (field_access e name) = field_access (optimize e) name
      optimize (array_index a i) = array_index a i
      optimize (await e) = await e
      optimize (try e) = try e

      pub optimize_fields : ObjectFields → ObjectFields
      optimize_fields no_fields = no_fields
      optimize_fields (field k e fs) = field k (optimize e) (optimize_fields fs)

      pub optimize_elements : Elements → Elements
      optimize_elements no_elements = no_elements
      optimize_elements (element e es) = element (optimize e) (optimize_elements es)

    -- OptimizeExpression
    unfoldable pub optimize_expression : Expr → Expr
    optimize_expression e = elim o.level [
      | opt_none ↦ e
      | opt_basic ↦ optimize e
      | opt_aggressive ↦ optimize e
    ]
