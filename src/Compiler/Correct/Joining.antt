-- ===== src/Compiler/Correct/Joining.antt =====
-- The pieces that the compiler emits for the parts of an expression make up code for it.
use glyphlang.Prelude.{ℕ, ◌≤◌, ◌≡◌, sym, ◌∙◌, ap, subst, List, ◌++◌, arith}
use glyphlang.Prelude.Maps.{Str}
use glyphlang.Eval.{literal_meaning, depth, depth_fields, depth_elements}
use glyphlang.Vm.Value.{Value, str}
use glyphlang.Vm.Opcode.{
  op_push, op_load_var, op_get_field, op_get_index, op_build_object, op_build_array, op_await,
  op_try,
}
use glyphlang.Vm.Machine.{max_stack_size}
use glyphlang.Ast.{Literal, Expr, ObjectFields, Elements, BinOp, UnOp, count_fields, count_elements}
use glyphlang.Compiler.Expression.{to_u32, binary_opcode, unary_opcode}
use glyphlang.Compiler.Correct.Code.{
  Code, FieldsCode, ElementsCode, plain, with_operand, count_fields-lt-depth,
  count_elements-lt-depth,
}
use glyphlang.Compiler.Correct.Emission.{Joined, Just, Constant}

-- Code for an expression that fits on the stack.
abbrev pub CodeFor : Expr → List Value → List ℕ → Type 0
CodeFor e pool bs = depth e ≤ max_stack_size → Code pool e bs

abbrev pub CodeForFields : ObjectFields → List Value → List ℕ → Type 0
CodeForFields fs pool bs = depth_fields fs ≤ max_stack_size → FieldsCode pool fs bs

abbrev pub CodeForElements : Elements → List Value → List ℕ → Type 0
CodeForElements es pool bs = depth_elements es ≤ max_stack_size → ElementsCode pool es bs

module _ (pool : List Value) (bs : List ℕ) where
  last_part :
      (P : List Value → List ℕ → Type 0) (xs : List ℕ) (j : Joined P (Just xs) pool bs)
      → bs ≡ j.first ++ xs
  last_part P xs j = j.split ∙ ap (λ l. j.first ++ l) j.of_second

  pub join_unary :
      (op : UnOp) (e : Expr)
      → Joined (CodeFor e) (Just (plain (unary_opcode op))) pool bs
      → CodeFor (Expr.unary op e) pool bs
  unfolding depth
  join_unary op e j room =
      subst (Code pool (Expr.unary op e)) (sym (last_part (CodeFor e) _ j))
        (Code.unary op (j.of_first room))

  pub join_await :
      (e : Expr)
      → Joined (CodeFor e) (Just (plain op_await)) pool bs
      → CodeFor (Expr.await e) pool bs
  unfolding depth
  join_await e j room =
      subst (Code pool (Expr.await e)) (sym (last_part (CodeFor e) _ j))
        (Code.await (j.of_first room))

  pub join_try :
      (e : Expr) → Joined (CodeFor e) (Just (plain op_try)) pool bs → CodeFor (Expr.try e) pool bs
  unfolding depth
  join_try e j room =
      subst (Code pool (Expr.try e)) (sym (last_part (CodeFor e) _ j)) (Code.try (j.of_first room))

  pub join_binary :
      (op : BinOp) (l r : Expr)
      → Joined (CodeFor l) (Joined (CodeFor r) (Just (plain (binary_opcode op)))) pool bs
      → CodeFor (Expr.binary op l r) pool bs
  unfolding depth
  join_binary op l r j room =
      let k = j.of_second in
      let e : bs ≡ j.first ++ (k.first ++ plain (binary_opcode op)) =
        j.split ∙ ap (λ x. j.first ++ x) (k.split ∙ ap (λ x. k.first ++ x) k.of_second) in
      subst (Code pool (Expr.binary op l r)) (sym e)
        (Code.binary op (j.of_first (omega arith)) (k.of_first (omega arith)))

  pub join_index :
      (a i : Expr)
      → Joined (CodeFor a) (Joined (CodeFor i) (Just (plain op_get_index))) pool bs
      → CodeFor (Expr.array_index a i) pool bs
  unfolding depth
  join_index a i j room =
      let k = j.of_second in
      let e : bs ≡ j.first ++ (k.first ++ plain op_get_index) =
        j.split ∙ ap (λ x. j.first ++ x) (k.split ∙ ap (λ x. k.first ++ x) k.of_second) in
      subst (Code pool (Expr.array_index a i)) (sym e)
        (Code.array_index (j.of_first (omega arith)) (k.of_first (omega arith)))

  pub join_field_access :
      (e : Expr) (name : Str)
      → Joined
          (CodeFor e)
          (Joined (Constant op_push (str name)) (Just (plain op_get_field)))
          pool
          bs
      → CodeFor (Expr.field_access e name) pool bs
  unfolding depth
  join_field_access e name j room =
      let k = j.of_second in
      let c = k.of_first in
      let q : bs ≡ j.first ++ (with_operand op_push c.place ++ plain op_get_field) =
        j.split
        ∙ ap (λ x. j.first ++ x)
            (k.split
              ∙ ap (λ x. x ++ k.second) c.bytes_eq
              ∙ ap (λ x. with_operand op_push c.place ++ x) k.of_second) in
      subst (Code pool (Expr.field_access e name)) (sym q)
        (Code.field_access name c.place (j.of_first (omega arith)) c.holds)

  pub join_array :
      (es : Elements)
      → Joined
          (CodeForElements es)
          (Just (with_operand op_build_array (to_u32 (count_elements es))))
          pool
          bs
      → CodeFor (Expr.array es) pool bs
  unfolding depth
  join_array es j room =
      let n : to_u32 (count_elements es) ≡ count_elements es =
        omega (arith, count_elements-lt-depth es) in
      subst (Code pool (Expr.array es))
        (sym (
          last_part (CodeForElements es) _ j
          ∙ ap (λ (m : ℕ). j.first ++ with_operand op_build_array m) n))
        (Code.array (j.of_first room))

  pub join_object :
      (fs : ObjectFields)
      → Joined
          (CodeForFields fs)
          (Just (with_operand op_build_object (to_u32 (count_fields fs))))
          pool
          bs
      → CodeFor (Expr.object fs) pool bs
  unfolding depth
  join_object fs j room =
      let n : to_u32 (count_fields fs) ≡ count_fields fs =
        omega (arith, count_fields-lt-depth fs) in
      subst (Code pool (Expr.object fs))
        (sym (
          last_part (CodeForFields fs) _ j
          ∙ ap (λ (m : ℕ). j.first ++ with_operand op_build_object m) n))
        (Code.object (j.of_first room))

  pub join_field :
      (key : Str) (e : Expr) (fs : ObjectFields)
      → Joined (Constant op_push (str key)) (Joined (CodeFor e) (CodeForFields fs)) pool bs
      → CodeForFields (ObjectFields.field key e fs) pool bs
  unfolding depth_fields
  join_field key e fs j room =
      let c = j.of_first in
      let k = j.of_second in
      let q : bs ≡ with_operand op_push c.place ++ (k.first ++ k.second) =
        j.split
        ∙ ap (λ x. x ++ j.second) c.bytes_eq
        ∙ ap (λ x. with_operand op_push c.place ++ x) k.split in
      subst (FieldsCode pool (ObjectFields.field key e fs)) (sym q) (
        FieldsCode.field key c.place c.holds (k.of_first (omega arith)) (k.of_second (omega arith)))

  pub join_element :
      (e : Expr) (es : Elements)
      → Joined (CodeFor e) (CodeForElements es) pool bs
      → CodeForElements (Elements.element e es) pool bs
  unfolding depth_elements
  join_element e es j room =
      subst (ElementsCode pool (Elements.element e es)) (sym j.split)
        (ElementsCode.element (j.of_first (omega arith)) (j.of_second (omega arith)))

  pub join_literal :
      (l : Literal)
      → Constant op_push (literal_meaning l) pool bs
      → CodeFor (Expr.literal l) pool bs
  join_literal l c room =
      subst (Code pool (Expr.literal l)) (sym c.bytes_eq) (Code.literal l c.place c.holds)

  pub join_variable :
      (name : Str) → Constant op_load_var (str name) pool bs → CodeFor (Expr.variable name) pool bs
  join_variable name c room =
      subst (Code pool (Expr.variable name)) (sym c.bytes_eq) (Code.variable name c.place c.holds)
