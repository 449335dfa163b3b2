-- ===== src/Lib.antt =====
-- Verification of the language core of GlyphLang: its lexer, its bytecode compiler with the
-- optimizer of expressions, and its bytecode machine; and of its LRU cache.
--
-- The program. The lexer (pkg/parser) makes tokens of the source, of which the parser makes a
-- syntax tree (pkg/ast) with routes and functions. The compiler (pkg/compiler) walks the tree and
-- appends to a pool of constants and a buffer of code, resolves names in a chain of scopes, and
-- writes both as a container of bytes. The machine (pkg/vm) reads the container and runs its
-- code: a stack machine with variables, arrays, objects, iterators, functions and futures.
--
-- The files.
--   Prelude and its children: numbers, lists, options, results, association lists and their lemmas.
--   Bytes: little-endian words, as encoding/binary has them. Int64: int64 by its bit pattern.
--   Vm.Value: pkg/vm/value.go. Arrays and objects are references into a heap, since a Go map or
--     slice is shared by the values that hold it.
--   Vm.Opcode, Vm.Machine, Vm.Arith, Vm.Compare, Vm.Collection, Vm.Control, Vm.Loader, Vm.Step:
--     pkg/vm/vm.go. Each method execX is exec_x from the state of the machine to a new state or an
--     error; what it computes from its operands is a function of its own, x_values or x_value.
--     Vm.Step has executeInstruction, step, runLoop and Execute.
--   Vm.Frame, Vm.Runs: what single steps keep, runs as a relation, and from the relation to the
--     loop.
--   Ast: the expressions of pkg/ast/ast.go that compile to code without jumps, and the statements.
--   Eval: a reference evaluator on the tree, with operands from left to right. It uses the
--     operations on values of the machine, but no stack, no code and no constants.
--   Exec: a reference for statements, on the tree and with the variables in one map.
--   Compiler.Symbols: pkg/compiler/symbols.go. A table is the chain of its scopes.
--   Compiler.State, Compiler.Expression, Compiler.Statement, Compiler.Control, Compiler.Container:
--     pkg/compiler/compiler.go; compileX is compile_x from the state of the compiler to a new state
--     or an error. Compiler.Control has compileStatement with the statements that jump.
--   Compiler.Total, Compiler.Correct: when expressions compile, and what compiled code does. Of
--     Compiler.Correct, Code to Theorems are about expressions; for statements, Arrivals says where
--     the machine arrives, StatementCode which bytes are code for a statement, the modules
--     Statement* what these do on the machine, Pieces to Statements what the compiler appends and
--     patches, and Settling where a break and a continue can stand; Programs puts these together.
--     Relocation and Relocated are about code whose jump targets have been moved.
--   Compiler.Container.Adjusting, Loading and Whole: what adjustJumpTargets does to instructions,
--     and how the loader of Vm.Loader reads the container.
--   Compiler.Routes: CompileRoute, CompileFunction and their kin, and pkg/server/pathparams.go; with
--     the way from the body of a route to the result of Execute, and from the body of a function to
--     a call of it and the return.
--   Compiler.Optimizer: OptimizeExpression of pkg/compiler/optimizer.go; its children are about
--     chains of copies, the types of expressions, folding, and the meaning that is kept.
--   Cache: pkg/cache/cache.go. Cache.Entry has the entries and the list of elements, Cache.Lru the
--     cache and its methods; the other children have the invariant and what the methods do.
--   Parser.Token, Parser.Chars, Parser.Lexer: pkg/parser/token.go and lexer.go. The lexer has the
--     input from the current character on; its children have what a token reads, the loop of
--     Tokenize, and the way from printed tokens back to these.
--   Tests: runs at concrete inputs.
--
-- Bounds and fuel. A byte is a number below 256, a uint32 is taken modulo 2 ^ 32, an int64 is its
-- bit pattern below 2 ^ 64. The stack holds at most 10000 values. run_loop takes fuel: with a step
-- limit N, N + 1 rounds are enough; compiled code needs a number of rounds that the theorem about
-- it gives. A loop of the reference for statements has a number of rounds as fuel: a loop of the
-- program may be endless. The loop of adjust_jump_targets has the length of the code as fuel, of
-- which each round reads one byte at least. The loop of Tokenize and the loops inside it over
-- characters have one round more than there are characters left, and no result where that is not
-- enough.
--
-- What is a parameter. `Host` has the float64 arithmetic of the processor on bit patterns, the
-- order in which Go ranges over a map, and the outcome of awaiting a future. Theorems that need it
-- take `FloatEqLaw`: floats that compare equal and are not -0 have the same bits. Builtins are a
-- table in the state of the machine.
--
-- What is not modelled. The goroutines of async bodies, the profiler, the debug output of the
-- telemetry instruction, WebSocket instructions with a handler; of the compiler the calls of
-- functions, match and async expressions, the passes of the optimizer over statements, whose
-- result the compilation of a route takes as its body, and the macro expander; of the cache
-- Stats, Close and the HTTP cache around it; of the lexer the texts of messages. The parser, the interpreter, the
-- server, the providers and the developer tools are other parts of the repository.
pub mod Prelude
pub mod Bytes
pub mod Int64
pub mod Vm
pub mod Ast
pub mod Compiler
pub mod Eval
pub mod Exec
pub mod Cache
pub mod Parser
mod Tests
