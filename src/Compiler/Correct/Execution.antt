-- ===== src/Compiler/Correct/Execution.antt =====
-- Code for an expression, run by the machine, computes the value of the expression.
use glyphlang.Prelude.{ℕ, ◌≡◌, List, false}
use glyphlang.Vm.Value.{Host}
use glyphlang.Vm.Machine.{Vm}
use glyphlang.Ast.{Expr, ObjectFields, Elements}
use glyphlang.Compiler.Correct.Code.{
  Code, FieldsCode, ElementsCode, literal, variable, binary, unary, object, array, field_access,
  array_index, await, try, no_fields, field, no_elements, element,
}
use glyphlang.Compiler.Correct.Parts.{
  Computes, ComputesElements, ComputesFields, literal-Computes, variable-Computes, binary-Computes,
  unary-Computes, await-Computes, try-Computes, array_index-Computes, field_access-Computes,
  no_elements-Computes, element-Computes, array-Computes, no_fields-Computes, field-Computes,
  object-Computes,
}

module _ (host : Host) (vm : Vm) (live : vm.halted ≡ false) where
  mutual
    at_pool : {e : Expr} {xs : List ℕ} → Code vm.constants e xs → Computes host vm live e xs
    at_pool (literal l i k) = literal-Computes host vm live l i k
    at_pool (variable name i k) = variable-Computes host vm live name i k
    at_pool (binary op c d) = binary-Computes host vm live op _ _ _ _ (at_pool c) (at_pool d)
    at_pool (unary op c) = unary-Computes host vm live op _ _ (at_pool c)
    at_pool (object c) = object-Computes host vm live _ _ (fields_compute c)
    at_pool (array c) = array-Computes host vm live _ _ (elements_compute c)
    at_pool (field_access name i c k) = field_access-Computes host vm live _ _ name i (at_pool c) k
    at_pool (array_index c d) = array_index-Computes host vm live _ _ _ _ (at_pool c) (at_pool d)
    at_pool (await c) = await-Computes host vm live _ _ (at_pool c)
    at_pool (try c) = try-Computes host vm live _ _ (at_pool c)

    fields_compute :
        {fs : ObjectFields} {xs : List ℕ}
        → FieldsCode vm.constants fs xs
        → ComputesFields host vm live fs xs
    fields_compute no_fields = no_fields-Computes host vm live
    fields_compute (field key i k c d) =
        field-Computes host vm live key i _ _ _ _ k (at_pool c) (fields_compute d)

    elements_compute :
        {es : Elements} {xs : List ℕ}
        → ElementsCode vm.constants es xs
        → ComputesElements host vm live es xs
    elements_compute no_elements = no_elements-Computes host vm live
    elements_compute (element c d) =
        element-Computes host vm live _ _ _ _ (at_pool c) (elements_compute d)

  pub Code-Computes : (e : Expr) (xs : List ℕ) → Code vm.constants e xs → Computes host vm live e xs
  Code-Computes e xs c = at_pool c
