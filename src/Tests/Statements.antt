-- ===== src/Tests/Statements.antt =====
-- A compiled program with a loop at a concrete input: x = 0; while x < 5 { x = x + 1; if x == 2
-- { break } else { continue } }; return x.
use glyphlang.Prelude.{
  ℕ, suc, ◌+◌, ◌≡◌, refl, subst, List, [], ◌∷◌, ◌++◌, append_assoc, some, ok, arith, length,
  length-append, get_elem?-append_length,
}
use glyphlang.Int64
use glyphlang.Prelude.Maps.{Str, lookup, insert, str_eq}
use glyphlang.Bytes.{put_u32}
use glyphlang.Ast.{
  literal, variable, binary, add, lt, eq, int_literal, Block, no_statements, statement,
  assign_statement, reassign_statement, return_statement, if_statement, while_statement,
  break_statement, continue_statement,
}
use glyphlang.Vm.Value.{int, str}
use glyphlang.Vm.Opcode.{opcode_byte}
use glyphlang.Vm.Arith.{add_values, pure_op}
use glyphlang.Vm.Compare.{lt_values, eq_values, values_equal}
use glyphlang.Vm.Control.{variable_value, expect_bool}
use glyphlang.Vm.Runs.{Stands}
use glyphlang.Vm.Step.{run_loop}
use glyphlang.Eval.{eval, depth, literal_meaning, binary_meaning}
use glyphlang.Exec.{
  Env, exec, exec_block, loop, from, and_then, after_body, value_of, test_of, returned, room_for,
  room_for_block,
}
use glyphlang.Compiler.Symbols.{
  plain_symbol, global_scope, new_global, enter_scope, parent, resolve, resolve_in, resolve_local,
  or_else, define, put_symbol,
}
use glyphlang.Compiler.State.{
  Compiler, reset, add_constant, find_constant, add_found, emit, emit_with_operand,
}
use glyphlang.Compiler.State.Pool.{Extends-refl}
use glyphlang.Compiler.Expression.{
  compile_expression, compile_constant, compile_variable, literal_value, binary_opcode,
}
use glyphlang.Compiler.Statement.{
  compile_assign, compile_reassign, compile_return, compile_store, is_resolved, is_redeclared,
}
use glyphlang.Compiler.Control.{
  compile_block, compile_statement, compile_else, compile_break, compile_continue, patch_code,
  patch_jump, patch_jumps, push_loop, pop_loop, enter_block, leave_block,
}
use glyphlang.Compiler.Correct.Arrivals.{Arrives}
use glyphlang.Compiler.Correct.Jumps.{place}
use glyphlang.Compiler.Correct.StatementParts.{exits}
use glyphlang.Compiler.Correct.Whole.{CleanExpr}
use glyphlang.Compiler.Correct.Settling.{Settled}
use glyphlang.Compiler.Correct.Statements.{IsCovered, IsCoveredBlock}
use glyphlang.Compiler.Correct.Programs.{
  Appends, compile_block-Appends, compile_block-Arrives, compile_block-run_loop, finished_at,
}
use glyphlang.Tests.Samples.{sample_host, sample_law, no_heap, reset-IsReady, loaded}

abbrev x : Str
x = 120 ∷ []

abbrev program : Block
program = statement (assign_statement x (literal (int_literal 0))) (
    statement
      (while_statement (binary lt (variable x) (literal (int_literal 5))) (
        statement (reassign_statement x (binary add (variable x) (literal (int_literal 1)))) (
          statement
            (if_statement (binary eq (variable x) (literal (int_literal 2)))
              (statement break_statement no_statements)
              (statement continue_statement no_statements))
            no_statements)))
      (statement (return_statement (variable x)) no_statements))

abbrev compiled : Compiler
compiled = record {
  constants = int 0 ∷ str x ∷ int 5 ∷ int 1 ∷ int 2 ∷ [];
  code =
      1 ∷ 0 ∷ 0 ∷ 0 ∷ 0 ∷ 65 ∷ 1 ∷ 0 ∷ 0 ∷ 0 ∷ 64 ∷ 1 ∷ 0 ∷ 0 ∷ 0 ∷ 1 ∷ 2 ∷ 0 ∷ 0 ∷ 0 ∷ 34 ∷ 81 ∷ 78
      ∷ 0 ∷ 0 ∷ 0 ∷ 64 ∷ 1 ∷ 0 ∷ 0 ∷ 0 ∷ 1 ∷ 3 ∷ 0 ∷ 0 ∷ 0 ∷ 16 ∷ 65 ∷ 1 ∷ 0 ∷ 0 ∷ 0 ∷ 64 ∷ 1 ∷ 0
      ∷ 0 ∷ 0 ∷ 1 ∷ 4 ∷ 0 ∷ 0 ∷ 0 ∷ 32 ∷ 81 ∷ 68 ∷ 0 ∷ 0 ∷ 0 ∷ 80 ∷ 78 ∷ 0 ∷ 0 ∷ 0 ∷ 80 ∷ 73 ∷ 0 ∷ 0
      ∷ 0 ∷ 80 ∷ 10 ∷ 0 ∷ 0 ∷ 0 ∷ 80 ∷ 10 ∷ 0 ∷ 0 ∷ 0 ∷ 64 ∷ 1 ∷ 0 ∷ 0 ∷ 0 ∷ 97 ∷ [];
  symbol_table = record {
    current = record { symbols = (x, plain_symbol x global_scope 1) ∷ []; kind = global_scope };
    parents = [];
  };
  label_counter = 0;
  loop_stack = [];
}

compiles : compile_block sample_host program reset ≡ ok compiled
unfolding compile_block compile_statement compile_else compile_assign compile_reassign
    compile_return compile_store compile_break compile_continue compile_expression compile_constant
    compile_variable add_constant find_constant add_found values_equal literal_value binary_opcode
    opcode_byte put_u32 emit emit_with_operand patch_code patch_jump patch_jumps push_loop pop_loop
    enter_block leave_block enter_scope parent resolve resolve_in resolve_local or_else lookup
    insert str_eq define put_symbol is_resolved is_redeclared reset new_global
compiles = refl

abbrev at_first : Env
at_first = record { locals = []; heap = no_heap }

abbrev at_last : Env
at_last = record { locals = (x, int 2) ∷ []; heap = no_heap }

-- The loop ends at its second round.
executes : exec_block sample_host [] 3 program at_first ≡ some (ok (returned (int 2) at_last))
unfolding exec_block exec loop from and_then after_body value_of test_of eval literal_meaning
    binary_meaning variable_value expect_bool lookup insert str_eq add_values lt_values eq_values
    pure_op Int64.add Int64.lt values_equal
executes = refl

Stands-from : (pre xs : List ℕ) → Stands (pre ++ xs) (length pre) xs
Stands-from pre [] = tt
Stands-from pre (b ∷ bs) =
    let longer : length (pre ++ b ∷ []) ≡ length pre + 1 =
      omega (arith, length-append {0} pre (b ∷ [])) in
    (
      get_elem?-append_length pre b bs,
      subst (λ p. Stands (pre ++ b ∷ bs) p bs) longer
          (subst (λ l. Stands l (length (pre ++ b ∷ [])) bs) (append_assoc pre (b ∷ []) bs)
            (Stands-from (pre ++ b ∷ []) bs)),
    )

covered : IsCoveredBlock program
unfolding IsCoveredBlock IsCovered CleanExpr literal_meaning
covered = (
  (λ e. cc),
  (((tt, λ e. cc), ((tt, λ e. cc), (((tt, λ e. cc), (tt, tt), (tt, tt)), tt))), (tt, tt)),
)

compile_block-Arrives_example :
    Arrives sample_host
      (loaded compiled)
      []
      (exits 84 0 0)
      (place (loaded compiled) at_first 0 [])
      (exec_block sample_host [] 3 program at_first)
    × Settled (exec_block sample_host [] 3 program at_first)
unfolding reset room_for_block room_for depth
compile_block-Arrives_example =
    compile_block-Arrives sample_host sample_law program reset compiled compiles reset-IsReady
      covered refl (loaded compiled) [] 3 at_first refl (Extends-refl compiled.constants)
      (omega arith) (omega arith) (Stands-from [] compiled.code) (omega arith)

compile_block-run_loop_example :
    (n : ℕ) × (pc : ℕ) × ((extra : ℕ)
      → run_loop sample_host (n + suc (suc extra)) 0 (place (loaded compiled) at_first 0 [])
        ≡ some (ok (int 2, finished_at (loaded compiled) pc (int 2, at_last))))
unfolding reset room_for_block room_for depth
compile_block-run_loop_example =
    compile_block-run_loop sample_host sample_law program reset compiled compiles reset-IsReady
      covered refl (loaded compiled) 3 at_first refl refl refl (Extends-refl compiled.constants)
      (omega arith) (omega arith) (Stands-from [] compiled.code) (omega arith) (ok (int 2, at_last))
      executes

compile_block-Appends_example : Appends reset compiled
compile_block-Appends_example =
    compile_block-Appends sample_host sample_law program reset compiled compiles reset-IsReady
      covered
