-- ===== src/Compiler/Correct/Whole.antt =====
-- compileExpression emits code for its expression.
use glyphlang.Prelude.{
  ℕ, ◌≡◌, refl, sym, ◌∙◌, ap, subst, List, [], append-nil, Result, ok, ◌>>=◌, >>=-eq-ok,
}
use glyphlang.Prelude.Maps.{Str}
use glyphlang.Eval.{literal_meaning}
use glyphlang.Vm.Value.{Value, str, Host}
use glyphlang.Vm.Opcode.{Opcode, op_push, op_get_field}
use glyphlang.Ast.{Literal, Expr, ObjectFields, Elements, int_literal}
use glyphlang.Compiler.State.{Compiler, CompileError, emit, emit_with_operand}
use glyphlang.Compiler.State.Pool.{IsClean, FloatEqLaw, Extends-refl}
use glyphlang.Compiler.Expression.{
  literal_value, compile_constant, compile_expression, compile_fields, compile_elements,
}
use glyphlang.Compiler.Correct.Code.{FieldsCode, ElementsCode, plain, with_operand}
use glyphlang.Compiler.Correct.Joining.{
  CodeFor, CodeForFields, CodeForElements, join_unary, join_await, join_try, join_binary,
  join_index, join_field_access, join_array, join_object, join_field, join_element, join_literal,
  join_variable,
}
use glyphlang.Compiler.Correct.Emission.{
  IsReady, Emits, Emits-IsReady, Emits-map, Emits-seq, Joined, Just, Constant, emit-Emits,
  emit_with_operand-Emits, compile_constant-Emits, compile_variable-Emits,
}

-- No literal of the expression is the float -0.
unfoldable mutual
  pub CleanExpr : Expr → Type 0
  CleanExpr (Expr.literal l) = IsClean (literal_meaning l)
  CleanExpr (Expr.variable name) = Unit {0}
  CleanExpr (Expr.binary op l r) = CleanExpr l × CleanExpr r
  CleanExpr (Expr.unary op e) = CleanExpr e
  CleanExpr (Expr.object fs) = CleanFields fs
  CleanExpr (Expr.array es) = CleanElements es
  CleanExpr (Expr.field_access e name) = CleanExpr e
  CleanExpr (Expr.array_index a i) = CleanExpr a × CleanExpr i
  CleanExpr (Expr.await e) = CleanExpr e
  CleanExpr (Expr.try e) = CleanExpr e

  pub CleanFields : ObjectFields → Type 0
  CleanFields ObjectFields.no_fields = Unit {0}
  CleanFields (ObjectFields.field k e fs) = CleanExpr e × CleanFields fs

  pub CleanElements : Elements → Type 0
  CleanElements Elements.no_elements = Unit {0}
  CleanElements (Elements.element e es) = CleanExpr e × CleanElements es

pub str-IsClean : (s : Str) → IsClean (str s)
str-IsClean s e = cc

-- A literal's constant is the literal's meaning.
literal_value-meaning : (l : Literal) → literal_value l ≡ literal_meaning l
unfolding literal_value literal_meaning
literal_value-meaning (int_literal n) = refl
literal_value-meaning _ = refl

-- A compilation returned `c`.
abbrev Returned : Compiler → Compiler → Type 0
Returned b c = ◌≡◌ {A = Result CompileError Compiler} (ok b) (ok c)

module _ (host : Host) (law : FloatEqLaw host) where
  -- The rules for a compilation in two parts, and for one that ends with an instruction.
  pub two_parts :
      {P Q : List Value → List ℕ → Type 0} (a c : Compiler) (f : Result CompileError Compiler)
      (g : Compiler → Result CompileError Compiler)
      → (f >>= g) ≡ ok c
      → IsReady a
      → ((b : Compiler) → f ≡ ok b → Emits P a b)
      → ((b : Compiler) → g b ≡ ok c → IsReady b → Emits Q b c)
      → Emits (Joined P Q) a c
  two_parts a c f g e ready first second =
      let (b, p, q) = >>=-eq-ok f g e in
      let x = first b p in Emits-seq a b c x (second b q (Emits-IsReady a b x ready))

  pub end_with :
      (op : Opcode) (b c : Compiler)
      → Returned (emit op b) c
      → IsReady b
      → Emits (Just (plain op)) b c
  end_with op b c e ready =
      let same : emit op b ≡ c = cc in
      subst (λ d. Emits (Just (plain op)) b d) same (emit-Emits op b ready.clean)

  end_with_operand :
      (op : Opcode) (n : ℕ) (b c : Compiler)
      → Returned (emit_with_operand op n b) c
      → IsReady b
      → Emits (Just (with_operand op n)) b c
  end_with_operand op n b c e ready =
      let same : emit_with_operand op n b ≡ c = cc in
      subst (λ d. Emits (Just (with_operand op n)) b d) same
        (emit_with_operand-Emits op n b ready.clean)

  mutual
    unfolding compile_expression compile_fields compile_elements CleanExpr CleanFields CleanElements

    emits :
        (e : Expr) (c c' : Compiler)
        → compile_expression host e c ≡ ok c'
        → IsReady c
        → CleanExpr e
        → Emits (CodeFor e) c c'
    emits (Expr.literal l) c c' eq ready clean =
        let same : compile_constant host (literal_value l) c ≡ c' = cc in
        Emits-map c c' (λ pool bs. join_literal pool bs l)
          (subst (λ d. Emits (Constant op_push (literal_meaning l)) c d)
            (ap (λ v. compile_constant host v c) (sym (literal_value-meaning l)) ∙ same)
            (compile_constant-Emits host law (literal_meaning l) c ready.clean clean))
    emits (Expr.variable name) c c' eq ready clean =
        Emits-map c c' (λ pool bs. join_variable pool bs name)
          (compile_variable-Emits name c c' eq ready)
    emits (Expr.binary op l r) c c' eq ready (cl, cr) =
        Emits-map c c' (λ pool bs. join_binary pool bs op l r)
          (two_parts c c' (compile_expression host l c) _ eq ready (λ b p. emits l c b p ready cl)
            λ b q rb.
              two_parts b c' (compile_expression host r b) _ q rb (λ d p. emits r b d p rb cr)
                λ d t rd. end_with _ d c' t rd)
    emits (Expr.unary op e) c c' eq ready clean =
        Emits-map c c' (λ pool bs. join_unary pool bs op e)
          (two_parts c c' (compile_expression host e c) _ eq ready
            (λ b p. emits e c b p ready clean) λ b q rb. end_with _ b c' q rb)
    emits (Expr.object fs) c c' eq ready clean =
        Emits-map c c' (λ pool bs. join_object pool bs fs)
          (two_parts c c' (compile_fields host fs c) _ eq ready
            (λ b p. fields-Emits fs c b p ready clean) λ b q rb. end_with_operand _ _ b c' q rb)
    emits (Expr.array es) c c' eq ready clean =
        Emits-map c c' (λ pool bs. join_array pool bs es)
          (two_parts c c' (compile_elements host es c) _ eq ready
            (λ b p. elements-Emits es c b p ready clean) λ b q rb. end_with_operand _ _ b c' q rb)
    emits (Expr.field_access e name) c c' eq ready clean =
        Emits-map c c' (λ pool bs. join_field_access pool bs e name)
          (two_parts c c' (compile_expression host e c) _ eq ready
            (λ b p. emits e c b p ready clean)
            λ b q rb.
              two_parts b c' (ok (compile_constant host (str name) b))
                (λ d. ok (emit op_get_field d)) q rb
                (λ d p.
                  let same : compile_constant host (str name) b ≡ d = cc in
                  subst (λ x. Emits (Constant op_push (str name)) b x) same
                    (compile_constant-Emits host law (str name) b rb.clean (str-IsClean name)))
                λ d t rd. end_with _ d c' t rd)
    emits (Expr.array_index a i) c c' eq ready (ca, ci) =
        Emits-map c c' (λ pool bs. join_index pool bs a i)
          (two_parts c c' (compile_expression host a c) _ eq ready (λ b p. emits a c b p ready ca)
            λ b q rb.
              two_parts b c' (compile_expression host i b) _ q rb (λ d p. emits i b d p rb ci)
                λ d t rd. end_with _ d c' t rd)
    emits (Expr.await e) c c' eq ready clean =
        Emits-map c c' (λ pool bs. join_await pool bs e)
          (two_parts c c' (compile_expression host e c) _ eq ready
            (λ b p. emits e c b p ready clean) λ b q rb. end_with _ b c' q rb)
    emits (Expr.try e) c c' eq ready clean =
        Emits-map c c' (λ pool bs. join_try pool bs e)
          (two_parts c c' (compile_expression host e c) _ eq ready
            (λ b p. emits e c b p ready clean) λ b q rb. end_with _ b c' q rb)

    fields-Emits :
        (fs : ObjectFields) (c c' : Compiler)
        → compile_fields host fs c ≡ ok c'
        → IsReady c
        → CleanFields fs
        → Emits (CodeForFields fs) c c'
    fields-Emits ObjectFields.no_fields c c' eq ready clean =
        let same : c ≡ c' = cc in
        subst (λ d. Emits (CodeForFields ObjectFields.no_fields) c d) same
          (record {
            bytes = [];
            code = sym (append-nil c.code);
            table = refl;
            loops = refl;
            grows = Extends-refl c.constants;
            clean = ready.clean;
            implements = λ pool x small room. FieldsCode.no_fields;
          })
    fields-Emits (ObjectFields.field key e fs) c c' eq ready (ce, cfs) =
        Emits-map c c' (λ pool bs. join_field pool bs key e fs)
          (two_parts c c' (ok (compile_constant host (str key) c))
            (λ b. compile_expression host e b >>= compile_fields host fs) eq ready
            (λ b p.
              let same : compile_constant host (str key) c ≡ b = cc in
              subst (λ x. Emits (Constant op_push (str key)) c x) same
                (compile_constant-Emits host law (str key) c ready.clean (str-IsClean key)))
            λ b q rb.
              two_parts b c' (compile_expression host e b) (compile_fields host fs) q rb
                (λ d p. emits e b d p rb ce) λ d t rd. fields-Emits fs d c' t rd cfs)

    elements-Emits :
        (es : Elements) (c c' : Compiler)
        → compile_elements host es c ≡ ok c'
        → IsReady c
        → CleanElements es
        → Emits (CodeForElements es) c c'
    elements-Emits Elements.no_elements c c' eq ready clean =
        let same : c ≡ c' = cc in
        subst (λ d. Emits (CodeForElements Elements.no_elements) c d) same
          (record {
            bytes = [];
            code = sym (append-nil c.code);
            table = refl;
            loops = refl;
            grows = Extends-refl c.constants;
            clean = ready.clean;
            implements = λ pool x small room. ElementsCode.no_elements;
          })
    elements-Emits (Elements.element e es) c c' eq ready (ce, ces) =
        Emits-map c c' (λ pool bs. join_element pool bs e es)
          (two_parts c c' (compile_expression host e c) (compile_elements host es) eq ready
            (λ b p. emits e c b p ready ce) λ b q rb. elements-Emits es b c' q rb ces)

  pub compile_expression-Emits :
      (e : Expr) (c c' : Compiler)
      → compile_expression host e c ≡ ok c'
      → IsReady c
      → CleanExpr e
      → Emits (CodeFor e) c c'
  compile_expression-Emits e c c' eq ready clean = emits e c c' eq ready clean
