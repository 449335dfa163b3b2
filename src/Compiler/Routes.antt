-- ===== src/Compiler/Routes.antt =====
-- pkg/compiler/compiler.go: CompileRoute, CompileFunction, CompileCommand, CompileCronTask,
-- CompileEventHandler and CompileQueueWorker; pkg/server/pathparams.go. A body is what
-- OptimizeStatements has made of the source's.
pub mod Declaring
pub mod Finishing
pub mod Running
pub mod Theorems
pub mod Calling
pub mod Paths
use glyphlang.Prelude.{
  ℕ, zero, suc, Bool, true, false, not, List, [], ◌∷◌, ◌++◌, Result, ok, ◌>>=◌, ◌==◌, if◌then◌else◌,
  length,
}
use glyphlang.Prelude.Maps.{Str, bytes_of}
use glyphlang.Vm.Value.{str, null, Host}
use glyphlang.Vm.Opcode.{op_halt, op_return}
use glyphlang.Ast.{Block}
use glyphlang.Compiler.Symbols.{
  SymbolScope, route_scope, function_scope, define, define_builtin, enter_scope,
}
use glyphlang.Compiler.State.{Compiler, CompileError, reset, add_constant, emit}
use glyphlang.Compiler.Expression.{compile_constant}
use glyphlang.Compiler.Control.{compile_block, declare}
use glyphlang.Compiler.Container.{build_bytecode}

-- The optimized statements, and isReturnStatement of the last one: whether this is a
-- *ast.ReturnStatement, which the ast.ReturnStatement of the parser is not.
pub record Body : Type 0 where
  pub statements : Block
  pub ends_with_return : Bool

-- The name from a colon on, up to a slash or the end; and what follows.
unfoldable pub param_name : Str → Str × Str
param_name [] = ([], [])
param_name (c ∷ path) =
    let rest = param_name path in if c == 0x2f then ([], c ∷ path) else (c ∷ rest.0, rest.1)

-- The loop of ExtractRouteParamNames over the characters of the path; each round takes one at least.
unfoldable pub param_names_from : ℕ → Str → List Str
param_names_from zero path = []
param_names_from (suc fuel) [] = []
param_names_from (suc fuel) (c ∷ path) = elim (c == 0x3a) [
  | true ↦
      let r = param_name path in
      let names = param_names_from fuel r.1 in if length r.0 == 0 then names else r.0 ∷ names
  | false ↦ param_names_from fuel path
]

-- ExtractRouteParamNames. The source takes the path as characters, the model as bytes: a path of valid
-- UTF-8 has the same colons and slashes in both.
unfoldable pub extract_route_param_names : Str → List Str
extract_route_param_names path = param_names_from (length path) path

-- What is compiled at the end of a body that does not end with a return: OpHalt, or return null.
pub data Ending : Type 0 where
  halts returns_null : Ending

-- c.Reset(), and the scope of the body
unfoldable pub begin : SymbolScope → Compiler
begin kind = record reset { symbol_table = enter_scope kind reset.symbol_table }

module _ (host : Host) where
  -- idx := c.addConstant(…); c.symbolTable.DefineBuiltin(name, idx)
  unfoldable pub declare_builtin : Str → Compiler → Compiler
  declare_builtin name c =
      let added = add_constant host (str name) c in
      record added.1 { symbol_table = define_builtin name added.0 added.1.symbol_table }

  unfoldable pub declare_all : List Str → Compiler → Compiler
  declare_all [] c = c
  declare_all (name ∷ names) c = declare_all names (declare host name c).1

  -- The code behind the body.
  unfoldable pub finish : Ending → Bool → Compiler → Compiler
  finish ending true c = c
  finish halts false c = emit op_halt c
  finish returns_null false c = emit op_return (compile_constant host null c)

  -- The statements, and the end of the body.
  unfoldable pub compile_body : Ending → Body → Compiler → Result CompileError Compiler
  compile_body ending body c = do
    c₁ ← compile_block host body.statements c
    ok (finish ending body.ends_with_return c₁)

  -- The names of a route: the parameters of its path, its injections, and the builtins.
  unfoldable pub begin_route : Str → List Str → Bool → Compiler
  begin_route path injections has_auth =
      let named =
        declare_all injections (declare_all (extract_route_param_names path) (begin route_scope)) in
      let requested =
        declare_builtin (bytes_of "ws")
          (declare_builtin (bytes_of "input") (declare_builtin (bytes_of "query") named)) in
      if has_auth then declare_builtin (bytes_of "auth") requested else requested

  -- CompileRoute
  unfoldable pub compile_route : Str → List Str → Bool → Body → Result CompileError (List ℕ)
  compile_route path injections has_auth body =
      compile_body halts body (begin_route path injections has_auth) >>= build_bytecode

  -- CompileFunction
  unfoldable pub compile_function : List Str → Body → Result CompileError (List ℕ)
  compile_function params body =
      compile_body returns_null body (declare_all params (begin function_scope)) >>= build_bytecode

  -- CompileCommand
  unfoldable pub compile_command : List Str → Body → Result CompileError (List ℕ)
  compile_command params body =
      compile_body halts body (declare_all params (begin route_scope)) >>= build_bytecode

  -- CompileCronTask
  unfoldable pub compile_cron_task : List Str → Body → Result CompileError (List ℕ)
  compile_cron_task injections body =
      compile_body halts body (declare_all injections (begin route_scope)) >>= build_bytecode

  -- CompileEventHandler
  unfoldable pub compile_event_handler : List Str → Body → Result CompileError (List ℕ)
  compile_event_handler injections body =
      compile_body halts body (
        declare_all injections
          (declare host (bytes_of "input")
            (declare host (bytes_of "event") (begin route_scope)).1).1)
      >>= build_bytecode

  -- CompileQueueWorker
  unfoldable pub compile_queue_worker : List Str → Body → Result CompileError (List ℕ)
  compile_queue_worker injections body =
      compile_body halts body (
        declare_all injections
          (declare host (bytes_of "input")
            (declare host (bytes_of "message") (begin route_scope)).1).1)
      >>= build_bytecode
