-- ===== src/Ast.antt =====
-- pkg/ast/ast.go: literals, operators, the expressions that pkg/compiler/compiler.go compiles
-- without jumps, and the statements. Source positions are left out. Match, async and call
-- expressions, and the statements that are not compiled, are not modelled.
use glyphlang.Prelude.{ℕ, suc, Bool, Option}
use glyphlang.Prelude.Maps.{Str}

pub data Literal : Type 0 where
  int_literal : ℕ → Literal
  string_literal : Str → Literal
  bool_literal : Bool → Literal
  float_literal : ℕ → Literal
  null_literal : Literal

pub data BinOp : Type 0 where
  add sub mul div eq ne lt le gt ge and or mod_op : BinOp

pub data UnOp : Type 0 where
  not_op neg_op : UnOp

mutual
  pub data Expr : Type 0 where
    literal : Literal → Expr
    variable : Str → Expr
    binary : BinOp → Expr → Expr → Expr
    unary : UnOp → Expr → Expr
    object : ObjectFields → Expr
    array : Elements → Expr
    field_access : Expr → Str → Expr
    array_index : Expr → Expr → Expr
    await : Expr → Expr
    try : Expr → Expr

  -- []ObjectField
  pub data ObjectFields : Type 0 where
    no_fields : ObjectFields
    field : Str → Expr → ObjectFields → ObjectFields

  -- []Expr
  pub data Elements : Type 0 where
    no_elements : Elements
    element : Expr → Elements → Elements

unfoldable pub count_fields : ObjectFields → ℕ
count_fields no_fields = 0
count_fields (field k e fs) = suc (count_fields fs)

unfoldable pub count_elements : Elements → ℕ
count_elements no_elements = 0
count_elements (element e es) = suc (count_elements es)

mutual
  -- Statement. A for statement has no key where the source has the empty name. A validation
  -- statement is compiled to nothing, so that its call is left out.
  pub data Statement : Type 0 where
    assign_statement : Str → Expr → Statement
    reassign_statement : Str → Expr → Statement
    return_statement : Expr → Statement
    if_statement : Expr → Block → Block → Statement
    while_statement : Expr → Block → Statement
    for_statement : Option Str → Str → Expr → Block → Statement
    switch_statement : Expr → Cases → Block → Statement
    expression_statement : Expr → Statement
    validation_statement : Statement
    break_statement : Statement
    continue_statement : Statement

  -- []Statement
  pub data Block : Type 0 where
    no_statements : Block
    statement : Statement → Block → Block

  -- []SwitchCase
  pub data Cases : Type 0 where
    no_cases : Cases
    switch_case : Expr → Block → Cases → Cases
