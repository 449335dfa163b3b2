-- ===== src/Compiler/Total.antt =====
-- When an expression compiles: compileExpression gives code or the error of an undefined variable.
use glyphlang.Prelude.{
  ℕ, ◌≡◌, refl, ◌∙◌, subst, Bool, true, false, ◌&&◌, Option, some, none, Result, ok, err, ◌>>=◌,
  or_fail,
}
use glyphlang.Prelude.Maps.{Str}
use glyphlang.Vm.Value.{Value, str, Host}
use glyphlang.Vm.Opcode.{op_load_var}
use glyphlang.Ast.{
  Expr, literal, variable, binary, unary, object, array, field_access, array_index, await, try,
  ObjectFields, no_fields, field, Elements, no_elements, element,
}
use glyphlang.Compiler.Symbols.{Symbol, SymbolTable, resolve}
use glyphlang.Compiler.State.{
  Compiler, CompileError, undefined_variable, add_constant, add_found, find_constant, emit,
  emit_with_operand,
}
use glyphlang.Compiler.Expression.{
  to_u32, compile_constant, compile_variable, compile_expression, compile_fields, compile_elements,
}
use glyphlang.Compiler.Statement.{is_resolved}

unfoldable mutual
  -- Every variable of the expression is in scope.
  pub all_resolve : SymbolTable → Expr → Bool
  all_resolve st (literal l) = true
  all_resolve st (variable name) = is_resolved (resolve name st)
  all_resolve st (binary op l r) = all_resolve st l && all_resolve st r
  all_resolve st (unary op e) = all_resolve st e
  all_resolve st (object fs) = all_resolve_fields st fs
  all_resolve st (array es) = all_resolve_elements st es
  all_resolve st (field_access e name) = all_resolve st e
  all_resolve st (array_index a i) = all_resolve st a && all_resolve st i
  all_resolve st (await e) = all_resolve st e
  all_resolve st (try e) = all_resolve st e

  pub all_resolve_fields : SymbolTable → ObjectFields → Bool
  all_resolve_fields st no_fields = true
  all_resolve_fields st (field key e fs) = all_resolve st e && all_resolve_fields st fs

  pub all_resolve_elements : SymbolTable → Elements → Bool
  all_resolve_elements st no_elements = true
  all_resolve_elements st (element e es) = all_resolve st e && all_resolve_elements st es

-- How compiling ends, from a state with the symbol table `st`.
pub data Ends (st : SymbolTable) : Bool → Result CompileError Compiler → Type 0 where
  compiles : {c : Compiler} → c.symbol_table ≡ st → Ends st true (ok c)
  undefined : Ends st false (err undefined_variable)

Ends-bind :
    (st : SymbolTable) {a b : Bool} {m : Result CompileError Compiler}
    {f : Compiler → Result CompileError Compiler}
    → Ends st a m
    → ((c : Compiler) → c.symbol_table ≡ st → Ends st b (f c))
    → Ends st (a && b) (m >>= f)
Ends-bind st (compiles {c = c} p) k = k c p
Ends-bind st undefined k = undefined

Ends-map :
    (st : SymbolTable) {a : Bool} {m : Result CompileError Compiler} (f : Compiler → Compiler)
    → Ends st a m
    → ((c : Compiler) → (f c).symbol_table ≡ c.symbol_table)
    → Ends st a (m >>= λ c. ok (f c))
Ends-map st f (compiles {c = c} p) same = compiles (same c ∙ p)
Ends-map st f undefined same = undefined

add_found-symbol_table :
    (host : Host) (o : Option ℕ) (v : Value) (c : Compiler)
    → (add_found host o v c).1.symbol_table ≡ c.symbol_table
unfolding add_found
add_found-symbol_table host (some i) v c = refl
add_found-symbol_table host none v c = refl

compile_constant-symbol_table :
    (host : Host) (v : Value) (c : Compiler)
    → (compile_constant host v c).symbol_table ≡ c.symbol_table
unfolding compile_constant emit_with_operand add_constant
compile_constant-symbol_table host v c =
    add_found-symbol_table host (find_constant host 0 v c.constants) v c

variable-Ends :
    (st : SymbolTable) (name : Str) (c : Compiler)
    → c.symbol_table ≡ st
    → Ends st (is_resolved (resolve name st)) (compile_variable name c)
unfolding compile_variable is_resolved emit_with_operand
variable-Ends st name c p =
    subst (λ t. Ends st (is_resolved (resolve name t)) (compile_variable name c)) p
      (go (resolve name c.symbol_table))
  where
    go :
        (o : Option Symbol)
        → Ends st (is_resolved o) (
            or_fail o undefined_variable >>= λ s.
            ok (emit_with_operand op_load_var (to_u32 s.index) c))
    go (some s) = compiles p
    go none = undefined

module _ (host : Host) (st : SymbolTable) where
  mutual
    unfolding compile_expression emit emit_with_operand all_resolve

    expression-Ends :
        (e : Expr) (c : Compiler)
        → c.symbol_table ≡ st
        → Ends st (all_resolve st e) (compile_expression host e c)
    expression-Ends (literal l) c p = compiles (compile_constant-symbol_table host _ c ∙ p)
    expression-Ends (variable name) c p = variable-Ends st name c p
    expression-Ends (binary op l r) c p =
        Ends-bind st (expression-Ends l c p)
          (λ d q. Ends-map st _ (expression-Ends r d q) (λ _. refl))
    expression-Ends (unary op e) c p = Ends-map st _ (expression-Ends e c p) (λ _. refl)
    expression-Ends (object fs) c p = Ends-map st _ (fields-Ends fs c p) (λ _. refl)
    expression-Ends (array es) c p = Ends-map st _ (elements-Ends es c p) (λ _. refl)
    expression-Ends (field_access e name) c p =
        Ends-map st _ (expression-Ends e c p) (λ d. compile_constant-symbol_table host (str name) d)
    expression-Ends (array_index a i) c p =
        Ends-bind st (expression-Ends a c p)
          (λ d q. Ends-map st _ (expression-Ends i d q) (λ _. refl))
    expression-Ends (await e) c p = Ends-map st _ (expression-Ends e c p) (λ _. refl)
    expression-Ends (try e) c p = Ends-map st _ (expression-Ends e c p) (λ _. refl)

    fields-Ends :
        (fs : ObjectFields) (c : Compiler)
        → c.symbol_table ≡ st
        → Ends st (all_resolve_fields st fs) (compile_fields host fs c)
    fields-Ends no_fields c p = compiles p
    fields-Ends (field key e fs) c p =
        Ends-bind st
          (expression-Ends e (compile_constant host (str key) c)
            (compile_constant-symbol_table host (str key) c ∙ p))
          (fields-Ends fs)

    elements-Ends :
        (es : Elements) (c : Compiler)
        → c.symbol_table ≡ st
        → Ends st (all_resolve_elements st es) (compile_elements host es c)
    elements-Ends no_elements c p = compiles p
    elements-Ends (element e es) c p = Ends-bind st (expression-Ends e c p) (elements-Ends es)

-- Compiling an expression gives code, and leaves the symbol table as it is, when every variable of
-- the expression is in scope; otherwise it gives the error of an undefined variable.
pub compile_expression-Ends :
    (host : Host) (e : Expr) (c : Compiler)
    → Ends c.symbol_table (all_resolve c.symbol_table e) (compile_expression host e c)
compile_expression-Ends host e c = expression-Ends host c.symbol_table e c refl
