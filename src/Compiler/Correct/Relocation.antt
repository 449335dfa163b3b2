-- ===== src/Compiler/Correct/Relocation.antt =====
-- What adjustJumpTargets makes of pieces of code: the code of expressions stays as it is.
use glyphlang.Prelude.{
  ℕ, ◌+◌, ◌%◌, ◌^◌, ◌<◌, ◌≡◌, refl, sym, ◌∙◌, ap, true, false, List, [], ◌++◌, append_assoc, arith,
  length, length-append,
}
use glyphlang.Vm.Value.{Value}
use glyphlang.Vm.Opcode.{
  Opcode, opcode_byte, op_push, op_load_var, op_get_field, op_get_index, op_build_object,
  op_build_array, op_await, op_try,
}
use glyphlang.Ast.{BinOp, add, UnOp, not_op, neg_op, Expr, ObjectFields, Elements}
use glyphlang.Compiler.Expression.{binary_opcode, unary_opcode}
use glyphlang.Compiler.Container.{is_jump, has_operand, adjust_jump_targets}
use glyphlang.Compiler.Container.Adjusting.{adjust-plain, adjust-operand, adjust-jump}
use glyphlang.Compiler.Correct.Code.{
  Code, FieldsCode, ElementsCode, plain, with_operand, literal, variable, binary, unary, object,
  array, field_access, array_index, await, try, no_fields, field, no_elements, element,
}
use glyphlang.Compiler.Correct.Parts.{length-with_operand}

binary_opcode-plain :
    (op : BinOp)
    → (is_jump (opcode_byte (binary_opcode op)) ≡ false)
      × (has_operand (opcode_byte (binary_opcode op)) ≡ false)
unfolding is_jump has_operand opcode_byte binary_opcode
binary_opcode-plain add = (refl, refl)
binary_opcode-plain _ = (refl, refl)

unary_opcode-plain :
    (op : UnOp)
    → (is_jump (opcode_byte (unary_opcode op)) ≡ false)
      × (has_operand (opcode_byte (unary_opcode op)) ≡ false)
unfolding is_jump has_operand opcode_byte unary_opcode
unary_opcode-plain not_op = (refl, refl)
unary_opcode-plain neg_op = (refl, refl)

module _ (header : ℕ) where
  -- The pass makes `ys` of `xs`, whatever follows, and as many bytes.
  pub record Relocates (xs ys : List ℕ) : Type 0 where
    pub pass :
        (rest : List ℕ)
        → adjust_jump_targets header (xs ++ rest) ≡ ys ++ adjust_jump_targets header rest
    pub size : length ys ≡ length xs

  pub Relocates-nil : Relocates [] []
  Relocates-nil = record { pass = λ rest. refl; size = refl }

  pub Relocates-append :
      {xs xs' ys ys' : List ℕ}
      → Relocates xs xs'
      → Relocates ys ys'
      → Relocates (xs ++ ys) (xs' ++ ys')
  Relocates-append {xs} {xs'} {ys} {ys'} a b = record {
    pass = λ rest.
        ap (adjust_jump_targets header) (append_assoc xs ys rest)
        ∙ a.pass (ys ++ rest)
        ∙ ap (λ (l : List ℕ). xs' ++ l) (b.pass rest)
        ∙ sym (append_assoc xs' ys' (adjust_jump_targets header rest));
    size = omega (arith, a.size, b.size, length-append xs ys, length-append xs' ys');
  }

  pub Relocates-plain :
      (op : Opcode)
      → is_jump (opcode_byte op) ≡ false
      → has_operand (opcode_byte op) ≡ false
      → Relocates (plain op) (plain op)
  Relocates-plain op p q = record {
    pass = λ rest. adjust-plain header (opcode_byte op) rest p q;
    size = refl;
  }

  pub Relocates-operand :
      (op : Opcode) (n : ℕ)
      → is_jump (opcode_byte op) ≡ false
      → has_operand (opcode_byte op) ≡ true
      → Relocates (with_operand op n) (with_operand op n)
  Relocates-operand op n p q = record {
    pass = λ rest. adjust-operand header (opcode_byte op) n rest p q;
    size = refl;
  }

  pub Relocates-jump :
      (op : Opcode) (n : ℕ)
      → is_jump (opcode_byte op) ≡ true
      → n + header < 2 ^ 32
      → Relocates (with_operand op n) (with_operand op (n + header))
  Relocates-jump op n p small = record {
    pass = λ rest.
        let e : (n + header) % 2 ^ 32 ≡ n + header = omega arith in
        adjust-jump header (opcode_byte op) n rest p (omega arith)
        ∙ ap (λ (k : ℕ). with_operand op k ++ adjust_jump_targets header rest) e;
    size = length-with_operand op (n + header) ∙ sym (length-with_operand op n);
  }

  mutual
    unfolding is_jump has_operand opcode_byte

    expression_kept :
        {pool : List Value} {e : Expr} {xs : List ℕ} → Code pool e xs → Relocates xs xs
    expression_kept (literal l i k) = Relocates-operand op_push i refl refl
    expression_kept (variable name i k) = Relocates-operand op_load_var i refl refl
    expression_kept (binary op c d) =
        let (p, q) = binary_opcode-plain op in
        Relocates-append (expression_kept c)
          (Relocates-append (expression_kept d) (Relocates-plain _ p q))
    expression_kept (unary op c) =
        let (p, q) = unary_opcode-plain op in
        Relocates-append (expression_kept c) (Relocates-plain _ p q)
    expression_kept (object c) =
        Relocates-append (fields_kept c) (Relocates-operand op_build_object _ refl refl)
    expression_kept (array c) =
        Relocates-append (elements_kept c) (Relocates-operand op_build_array _ refl refl)
    expression_kept (field_access name i c k) = Relocates-append (expression_kept c) (
        Relocates-append (Relocates-operand op_push i refl refl)
          (Relocates-plain op_get_field refl refl))
    expression_kept (array_index c d) =
        Relocates-append (expression_kept c)
          (Relocates-append (expression_kept d) (Relocates-plain op_get_index refl refl))
    expression_kept (await c) =
        Relocates-append (expression_kept c) (Relocates-plain op_await refl refl)
    expression_kept (try c) =
        Relocates-append (expression_kept c) (Relocates-plain op_try refl refl)

    fields_kept :
        {pool : List Value} {fs : ObjectFields} {xs : List ℕ}
        → FieldsCode pool fs xs
        → Relocates xs xs
    fields_kept no_fields = Relocates-nil
    fields_kept (field key i k c d) =
        Relocates-append (Relocates-operand op_push i refl refl)
          (Relocates-append (expression_kept c) (fields_kept d))

    elements_kept :
        {pool : List Value} {es : Elements} {xs : List ℕ}
        → ElementsCode pool es xs
        → Relocates xs xs
    elements_kept no_elements = Relocates-nil
    elements_kept (element c d) = Relocates-append (expression_kept c) (elements_kept d)

  pub Code-Relocates :
      {pool : List Value} {e : Expr} {xs : List ℕ} → Code pool e xs → Relocates xs xs
  Code-Relocates code = expression_kept code
