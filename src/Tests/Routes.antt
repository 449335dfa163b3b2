-- ===== src/Tests/Routes.antt =====
-- A compiled function and a compiled route at concrete inputs: if x < 5 { return x }, where x is a
-- parameter, and the container of the code.
use glyphlang.Prelude.{ℕ, ◌≡◌, refl, subst, true, false, List, [], ◌∷◌, Result, ok, some, arith}
use glyphlang.Prelude.Maps.{Str, lookup, insert, str_eq, bytes_of}
use glyphlang.Int64
use glyphlang.Bytes.{put_u32, put_u64, u32}
use glyphlang.Ast.{
  literal, variable, binary, lt, int_literal, no_statements, statement, return_statement,
  if_statement,
}
use glyphlang.Vm.Value.{Value, int, str, null}
use glyphlang.Vm.Machine.{Vm}
use glyphlang.Vm.Opcode.{opcode_byte}
use glyphlang.Compiler.Symbols.{
  Symbol, plain_symbol, function_scope, route_scope, global_scope, new_global, enter_scope, parent,
  resolve, resolve_in, resolve_local, or_else, define, define_builtin, put_symbol,
}
use glyphlang.Compiler.State.{
  Compiler, CompileError, reset, add_constant, find_constant, add_found, emit, emit_with_operand,
}
use glyphlang.Vm.Compare.{values_equal, lt_values, eq_values}
use glyphlang.Compiler.Expression.{
  compile_expression, compile_constant, compile_variable, literal_value, binary_opcode,
}
use glyphlang.Compiler.Statement.{compile_return}
use glyphlang.Compiler.Control.{
  declare, compile_block, compile_statement, compile_else, patch_code, patch_jump, enter_block,
  leave_block,
}
use glyphlang.Compiler.Container.{
  serialize_constant, serialize_constants, is_jump, has_operand, adjust_from, adjust_jump_targets,
  build_bytecode,
}
use glyphlang.Compiler.Routes.{
  Body, compile_body, finish, begin, declare_all, declare_builtin, begin_route, compile_function,
  compile_route, extract_route_param_names, param_names_from, param_name, halts,
}
use glyphlang.Compiler.Container.Loading.{IsStorable, AllStorable}
use glyphlang.Compiler.Container.Whole.{IsStorablePool, Loads, build_bytecode-Loads}
use glyphlang.Compiler.Routes.Theorems.{IsFresh, env_of, Executes, compile_route-Executes}
use glyphlang.Compiler.Routes.Paths.{text, param, extract_route_param_names-path_of}
use glyphlang.Compiler.Correct.Whole.{CleanExpr}
use glyphlang.Compiler.Correct.Statements.{IsCovered, IsCoveredBlock}
use glyphlang.Eval.{eval, depth, literal_meaning, binary_meaning}
use glyphlang.Exec.{
  normal, returned, exec, exec_block, from, and_then, value_of, test_of, room_for, room_for_block,
}
use glyphlang.Vm.Arith.{pure_op}
use glyphlang.Vm.Control.{variable_value, expect_bool}
use glyphlang.Tests.Samples.{sample_host, sample_law, sample_vm}

abbrev x : Str
x = 120 ∷ []

abbrev body : Body
body = record {
  statements =
      statement
        (if_statement (binary lt (variable x) (literal (int_literal 5)))
          (statement (return_statement (variable x)) no_statements) no_statements)
        no_statements;
  ends_with_return = false;
}

abbrev builtin_symbol : Str → ℕ → Symbol
builtin_symbol name i = record (plain_symbol name route_scope i) { is_builtin = true }

abbrev function_bytes : List ℕ
function_bytes =
    71 ∷ 76 ∷ 89 ∷ 80 ∷ 1 ∷ 0 ∷ 0 ∷ 0 ∷ 3 ∷ 0 ∷ 0 ∷ 0 ∷ 4 ∷ 1 ∷ 0 ∷ 0 ∷ 0 ∷ 120 ∷ 1 ∷ 5 ∷ 0 ∷ 0 ∷ 0
    ∷ 0 ∷ 0 ∷ 0 ∷ 0 ∷ 0 ∷ 33 ∷ 0 ∷ 0 ∷ 0 ∷ 64 ∷ 0 ∷ 0 ∷ 0 ∷ 0 ∷ 1 ∷ 1 ∷ 0 ∷ 0 ∷ 0 ∷ 34 ∷ 81 ∷ 59 ∷ 0
    ∷ 0 ∷ 0 ∷ 64 ∷ 0 ∷ 0 ∷ 0 ∷ 0 ∷ 97 ∷ 80 ∷ 59 ∷ 0 ∷ 0 ∷ 0 ∷ 1 ∷ 2 ∷ 0 ∷ 0 ∷ 0 ∷ 97 ∷ []

abbrev function_compiled : Compiler
function_compiled = record {
  constants = str (120 ∷ []) ∷ int 5 ∷ null ∷ [];
  code =
      64 ∷ 0 ∷ 0 ∷ 0 ∷ 0 ∷ 1 ∷ 1 ∷ 0 ∷ 0 ∷ 0 ∷ 34 ∷ 81 ∷ 27 ∷ 0 ∷ 0 ∷ 0 ∷ 64 ∷ 0 ∷ 0 ∷ 0 ∷ 0 ∷ 97
      ∷ 80 ∷ 27 ∷ 0 ∷ 0 ∷ 0 ∷ 1 ∷ 2 ∷ 0 ∷ 0 ∷ 0 ∷ 97 ∷ [];
  symbol_table = record {
    current = record {
      symbols = (120 ∷ [], plain_symbol (120 ∷ []) function_scope 0) ∷ [];
      kind = function_scope;
    };
    parents = record { symbols = []; kind = global_scope } ∷ [];
  };
  label_counter = 0;
  loop_stack = [];
}

abbrev route_bytes : List ℕ
route_bytes =
    71 ∷ 76 ∷ 89 ∷ 80 ∷ 1 ∷ 0 ∷ 0 ∷ 0 ∷ 5 ∷ 0 ∷ 0 ∷ 0 ∷ 4 ∷ 1 ∷ 0 ∷ 0 ∷ 0 ∷ 120 ∷ 4 ∷ 5 ∷ 0 ∷ 0 ∷ 0
    ∷ 113 ∷ 117 ∷ 101 ∷ 114 ∷ 121 ∷ 4 ∷ 5 ∷ 0 ∷ 0 ∷ 0 ∷ 105 ∷ 110 ∷ 112 ∷ 117 ∷ 116 ∷ 4 ∷ 2 ∷ 0 ∷ 0
    ∷ 0 ∷ 119 ∷ 115 ∷ 1 ∷ 5 ∷ 0 ∷ 0 ∷ 0 ∷ 0 ∷ 0 ∷ 0 ∷ 0 ∷ 28 ∷ 0 ∷ 0 ∷ 0 ∷ 64 ∷ 0 ∷ 0 ∷ 0 ∷ 0 ∷ 1
    ∷ 4 ∷ 0 ∷ 0 ∷ 0 ∷ 34 ∷ 81 ∷ 85 ∷ 0 ∷ 0 ∷ 0 ∷ 64 ∷ 0 ∷ 0 ∷ 0 ∷ 0 ∷ 97 ∷ 80 ∷ 85 ∷ 0 ∷ 0 ∷ 0 ∷ 255
    ∷ []

abbrev route_compiled : Compiler
route_compiled = record {
  constants =
      str (120 ∷ [])
      ∷ str (113 ∷ 117 ∷ 101 ∷ 114 ∷ 121 ∷ [])
      ∷ str (105 ∷ 110 ∷ 112 ∷ 117 ∷ 116 ∷ [])
      ∷ str (119 ∷ 115 ∷ [])
      ∷ int 5
      ∷ [];
  code =
      64 ∷ 0 ∷ 0 ∷ 0 ∷ 0 ∷ 1 ∷ 4 ∷ 0 ∷ 0 ∷ 0 ∷ 34 ∷ 81 ∷ 27 ∷ 0 ∷ 0 ∷ 0 ∷ 64 ∷ 0 ∷ 0 ∷ 0 ∷ 0 ∷ 97
      ∷ 80 ∷ 27 ∷ 0 ∷ 0 ∷ 0 ∷ 255 ∷ [];
  symbol_table = record {
    current = record {
      symbols =
          (120 ∷ [], plain_symbol (120 ∷ []) route_scope 0)
          ∷ (113 ∷ 117 ∷ 101 ∷ 114 ∷ 121 ∷ [], builtin_symbol (113 ∷ 117 ∷ 101 ∷ 114 ∷ 121 ∷ []) 1)
          ∷ (105 ∷ 110 ∷ 112 ∷ 117 ∷ 116 ∷ [], builtin_symbol (105 ∷ 110 ∷ 112 ∷ 117 ∷ 116 ∷ []) 2)
          ∷ (119 ∷ 115 ∷ [], builtin_symbol (119 ∷ 115 ∷ []) 3)
          ∷ [];
      kind = route_scope;
    };
    parents = record { symbols = []; kind = global_scope } ∷ [];
  };
  label_counter = 0;
  loop_stack = [];
}

abbrev path : Str
path = bytes_of "/u/:x"

route_compiles :
    (compile_route sample_host path [] false body ≡ ok route_bytes)
    × (compile_body sample_host halts body (begin_route sample_host path [] false)
        ≡ ok route_compiled)
unfolding compile_body compile_function compile_route declare declare_all declare_builtin begin
    begin_route finish extract_route_param_names param_names_from param_name build_bytecode
    serialize_constant serialize_constants adjust_jump_targets adjust_from is_jump has_operand
    compile_block compile_statement compile_else compile_return compile_expression compile_constant
    compile_variable add_constant find_constant add_found values_equal literal_value binary_opcode
    opcode_byte put_u32 put_u64 u32 emit emit_with_operand patch_code patch_jump enter_block
    leave_block enter_scope parent resolve resolve_in resolve_local or_else lookup insert str_eq
    define define_builtin put_symbol reset new_global
route_compiles = (refl, refl)

covered : IsCoveredBlock body.statements
unfolding IsCoveredBlock IsCovered CleanExpr literal_meaning
covered = (((tt, λ e. cc), (tt, tt), tt), tt)

-- A fresh machine on which x has a value.
abbrev with_x : ℕ → Vm
with_x n = record sample_vm { locals = (x, int n) ∷ [] }

with_x-IsFresh : (n : ℕ) → IsFresh (with_x n)
with_x-IsFresh n = record {
  no_constants = refl;
  no_stack = refl;
  no_caller = refl;
  no_limit = refl;
}

-- 7 is not below 5, and 3 is.
executes :
    (exec_block sample_host [] 1 body.statements (env_of (with_x 7))
      ≡ some (ok (normal (env_of (with_x 7)))))
    × (exec_block sample_host [] 1 body.statements (env_of (with_x 3))
        ≡ some (ok (returned (int 3) (env_of (with_x 3)))))
unfolding exec_block exec from and_then value_of test_of eval literal_meaning binary_meaning
    variable_value expect_bool lookup str_eq lt_values eq_values pure_op Int64.lt values_equal
executes = (refl, refl)

function_compiled-IsStorablePool : IsStorablePool function_compiled
unfolding AllStorable IsStorable
function_compiled-IsStorablePool = record {
  few = omega arith;
  small = (omega arith, (omega arith, (tt, tt)));
}

route_compiled-IsStorablePool : IsStorablePool route_compiled
unfolding AllStorable IsStorable
route_compiled-IsStorablePool = record {
  few = omega arith;
  small = (omega arith, (omega arith, (omega arith, (omega arith, (omega arith, tt)))));
}

only :
    (c c' : Compiler) {r : Result CompileError Compiler}
    → IsStorablePool c
    → r ≡ ok c
    → r ≡ ok c'
    → IsStorablePool c'
only c c' storable e e' = let same : c ≡ c' = cc in subst IsStorablePool same storable

-- A machine that has the function in its table, and code, a variable and a value of its own.
abbrev caller : Vm
caller = record sample_vm {
  stack = int 1 ∷ [];
  locals = (x, int 2) ∷ [];
  functions =
      (
        bytes_of "f",
        record {
          name = bytes_of "f";
          param_names = x ∷ [];
          code_offset = 0;
          code_length = 0;
          bytecode = some function_bytes;
          constants = some function_compiled.constants;
        },
      )
      ∷ [];
  pc = 3;
  code = 0 ∷ 0 ∷ 0 ∷ [];
}

compile_route-Executes_example :
    (pool : List Value) × Executes sample_host route_bytes pool
      (with_x 3)
      (ok (returned (int 3) (env_of (with_x 3))))
unfolding room_for_block room_for depth
compile_route-Executes_example =
    compile_route-Executes sample_host sample_law path [] false body route_bytes route_compiles.0
      (λ c e. only route_compiled c route_compiled-IsStorablePool route_compiles.1 e) (omega arith)
      covered (omega arith) (with_x 3) (with_x-IsFresh 3) 1
      (ok (returned (int 3) (env_of (with_x 3)))) executes.1 tt

function_builds : build_bytecode function_compiled ≡ ok function_bytes
unfolding build_bytecode serialize_constant serialize_constants adjust_jump_targets adjust_from
    is_jump has_operand opcode_byte put_u32 put_u64 u32
function_builds = refl

build_bytecode-Loads_example : Loads function_compiled function_bytes
build_bytecode-Loads_example =
    build_bytecode-Loads function_compiled function_bytes function_builds
      function_compiled-IsStorablePool

extract_route_param_names-path_of_example :
    extract_route_param_names (bytes_of "/u/:id/p/:n") ≡ bytes_of "id" ∷ bytes_of "n" ∷ []
extract_route_param_names-path_of_example =
    extract_route_param_names-path_of
      (text (bytes_of "u")
        ∷ param (bytes_of "id")
        ∷ text (bytes_of "p")
        ∷ param (bytes_of "n")
        ∷ [])
      ((λ e. cc, tt), ((λ e. cc, (λ e. cc, tt)), ((λ e. cc, tt), ((λ e. cc, tt), tt))))
