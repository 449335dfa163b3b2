-- ===== src/Tests/Compiling.antt =====
-- Compiled code at concrete inputs.
use glyphlang.Prelude.{ℕ, suc, zero, ◌+◌, ◌≡◌, refl, [], ◌∷◌, some, ok, arith, false}
use glyphlang.Int64
use glyphlang.Vm.Value.{int}
use glyphlang.Vm.Runs.{Runs, state}
use glyphlang.Vm.Step.{run_loop}
use glyphlang.Vm.Opcode.{opcode_byte}
use glyphlang.Eval.{eval, depth, literal_meaning, binary_meaning}
use glyphlang.Vm.Arith.{pure_op, sub_values}
use glyphlang.Prelude.Maps.{lookup, str_eq}
use glyphlang.Ast.{binary, variable, add}
use glyphlang.Compiler.State.{
  reset, find_constant, add_found, add_constant, emit, emit_with_operand,
}
use glyphlang.Compiler.State.Pool.{CleanPool, Added, add_constant-Added, Extends-refl}
use glyphlang.Compiler.Symbols.{
  new_global, resolve, resolve_in, or_else, define, put_symbol, plain_symbol, global_scope,
}
use glyphlang.Compiler.Symbols.Laws.{resolve-define}
use glyphlang.Compiler.Expression.{
  compile_expression, compile_constant, literal_value, binary_opcode,
}
use glyphlang.Bytes.{put_u32}
use glyphlang.Vm.Compare.{values_equal}
use glyphlang.Compiler.Statement.{compile_return, is_resolved}
use glyphlang.Compiler.Correct.Whole.{CleanExpr}
use glyphlang.Compiler.Correct.Steps.{lands}
use glyphlang.Compiler.Correct.Theorems.{compile_expression-Runs}
use glyphlang.Compiler.Correct.Return.{compile_return-run_loop, emptied}
use glyphlang.Compiler.Total.{Ends, all_resolve, compile_expression-Ends}
use glyphlang.Tests.Samples.{
  sample_host, sample_law, no_heap, difference, reset-IsReady, difference_compiled, return_compiled,
  loaded,
}

difference_compiles : compile_expression sample_host difference reset ≡ ok difference_compiled
unfolding compile_expression reset emit compile_constant new_global emit_with_operand add_constant
    find_constant add_found values_equal literal_value opcode_byte put_u32 binary_opcode
difference_compiles = refl

return_compiles : compile_return sample_host difference reset ≡ ok return_compiled
unfolding compile_return compile_expression reset emit compile_constant new_global emit_with_operand
    add_constant find_constant add_found values_equal literal_value opcode_byte put_u32
    binary_opcode
return_compiles = refl

compile_expression-Runs_example :
    Runs sample_host
      (state (loaded difference_compiled) 0 [] no_heap)
      (ok (lands (loaded difference_compiled) 11 [] (int 5, no_heap)))
unfolding eval reset depth CleanExpr literal_meaning binary_meaning pure_op sub_values Int64.sub
compile_expression-Runs_example =
    compile_expression-Runs sample_host sample_law difference reset difference_compiled
      difference_compiles reset-IsReady ((λ e. cc), (λ e. cc)) (loaded difference_compiled) 0 []
      no_heap refl (Extends-refl difference_compiled.constants) (omega arith)
      (refl, (refl, (refl, (refl, (refl, (refl, (refl, (refl, (refl, (refl, (refl, tt)))))))))))
      (omega arith)

compile_return-run_loop_example :
    (n : ℕ) × ((extra : ℕ)
      → run_loop sample_host (n + suc (suc extra)) 0 (state (loaded return_compiled) 0 [] no_heap)
        ≡ some (ok (int 5, emptied (loaded return_compiled) 12 no_heap)))
unfolding eval reset depth CleanExpr literal_meaning binary_meaning pure_op sub_values Int64.sub
compile_return-run_loop_example =
    compile_return-run_loop sample_host sample_law difference reset return_compiled return_compiles
      reset-IsReady ((λ e. cc), (λ e. cc)) (loaded return_compiled) 0 no_heap refl refl refl
      (Extends-refl return_compiled.constants) (omega arith)
      (
        refl,
        (refl, (refl, (refl, (refl, (refl, (refl, (refl, (refl, (refl, (refl, (refl, tt))))))))))),
      )
      (omega arith)

clean_pool : CleanPool (int 7 ∷ int 2 ∷ [])
clean_pool zero v h = λ e. cc
clean_pool (suc zero) v h = λ e. cc
clean_pool (suc (suc i)) v h = cc

add_constant-Added_example :
    Added
      (int 2)
      difference_compiled
      (add_constant sample_host (int 2) difference_compiled).0
      (add_constant sample_host (int 2) difference_compiled).1
add_constant-Added_example =
    add_constant-Added sample_host sample_law (int 2) difference_compiled clean_pool (λ e. cc)

compile_expression-Ends_example :
    Ends new_global false
      (compile_expression sample_host (binary add (variable (120 ∷ [])) difference) reset)
unfolding all_resolve reset resolve resolve_in or_else lookup new_global is_resolved
compile_expression-Ends_example =
    compile_expression-Ends sample_host (binary add (variable (120 ∷ [])) difference) reset

resolve-define_example :
    resolve (120 ∷ []) (define (120 ∷ []) 4 (define (120 ∷ []) 3 new_global))
    ≡ some (plain_symbol (120 ∷ []) global_scope 4)
unfolding new_global define put_symbol str_eq
resolve-define_example = resolve-define (120 ∷ []) (120 ∷ []) 4 (define (120 ∷ []) 3 new_global)
