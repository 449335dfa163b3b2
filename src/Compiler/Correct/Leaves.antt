-- ===== src/Compiler/Correct/Leaves.antt =====
-- The statements that hold no others: what compiling them appends is code for them.
use glyphlang.Prelude.{
  ℕ, ◌≤◌, ◌≡◌, refl, sym, ◌∙◌, ap, subst, Bool, true, false, not, List, [], ◌++◌, append-nil, some,
  Result, ok, ◌>>=◌, >>=-eq-ok, guard, arith, get_elem?,
}
use glyphlang.Prelude.Maps.{Str}
use glyphlang.Vm.Value.{Value, str, Host}
use glyphlang.Vm.Machine.{max_stack_size}
use glyphlang.Vm.Opcode.{Opcode, op_store_var, op_return, op_pop}
use glyphlang.Eval.{depth}
use glyphlang.Exec.{room_for}
use glyphlang.Ast.{Expr, Statement}
use glyphlang.Compiler.Symbols.{SymbolTable, resolve, resolve_local, define, put_symbol}
use glyphlang.Compiler.State.{
  Compiler, CompileError, redeclared_variable, undeclared_variable, add_constant, emit,
  emit_with_operand,
}
use glyphlang.Compiler.State.Pool.{FloatEqLaw, Extends-refl, add_constant-Added}
use glyphlang.Compiler.Expression.{compile_expression}
use glyphlang.Compiler.Statement.{
  compile_store, compile_assign, compile_reassign, compile_return, compile_expression_statement,
  is_resolved, is_redeclared,
}
use glyphlang.Compiler.Correct.Code.{Holds, Code, plain, with_operand}
use glyphlang.Compiler.Correct.Emission.{
  IsReady, Emits, Emits-IsReady, Emits-seq, Joined, Just, Constant,
}
use glyphlang.Compiler.Correct.Joining.{CodeFor}
use glyphlang.Compiler.Correct.Whole.{
  CleanExpr, two_parts, end_with, compile_expression-Emits, str-IsClean,
}
use glyphlang.Compiler.Correct.StatementCode.{
  StatementCode, assign_statement, reassign_statement, return_statement, expression_statement,
}
use glyphlang.Compiler.Correct.Pieces.{Pieces-fixed}
use glyphlang.Compiler.Correct.Placement.{
  Property, Placed, Emits-Placed, with_breaks-nil, define-IsReady, compile_store-Emits,
}

-- Code for a statement whose expressions fit on the stack.
abbrev pub CodeForStatement : Statement → Property
CodeForStatement st pool brk cont pc bs =
    room_for st ≤ max_stack_size → StatementCode pool brk cont pc st bs

-- A compilation that emits nothing.
pub empty-Placed :
    {P : Property} (c : Compiler)
    → IsReady c
    → ((pool : List Value) (brk cont pc : ℕ) → P pool brk cont pc [])
    → Placed P c c
empty-Placed c ready make = record {
  bytes = λ t. [];
  jumps = [];
  pieces = Pieces-fixed c.code c.code [] (sym (append-nil c.code));
  loops = sym (with_breaks-nil c.loop_stack);
  outer = refl;
  ready = ready;
  grows = Extends-refl c.constants;
  implements = λ pool brk x small fits b k. make pool brk _ _;
}

-- A compilation returned `c`.
abbrev Compiled : Compiler → Compiler → Type 0
Compiled b c = ◌≡◌ {A = Result CompileError Compiler} (ok b) (ok c)

module _ (host : Host) (law : FloatEqLaw host) where
  -- An expression and one instruction.
  value_and :
      (op : Opcode) (e : Expr) (c c' : Compiler)
      → (compile_expression host e c >>= λ d. ok (emit op d)) ≡ ok c'
      → IsReady c
      → CleanExpr e
      → Emits (Joined (CodeFor e) (Just (plain op))) c c'
  value_and op e c c' eq ready clean =
      two_parts host law c c' (compile_expression host e c) _ eq ready
        (λ b p. compile_expression-Emits host law e c b p ready clean)
        λ b q rb. end_with host law _ b c' q rb

  -- An expression and a store.
  value_stored :
      (name : Str) (e : Expr) (c d : Compiler)
      → compile_expression host e c ≡ ok d
      → IsReady c
      → CleanExpr e
      → Emits (Joined (CodeFor e) (Constant op_store_var (str name))) c (compile_store host name d)
  value_stored name e c d eq ready clean =
      let first = compile_expression-Emits host law e c d eq ready clean in
      Emits-seq c d (compile_store host name d) first
        (compile_store-Emits host law name d (Emits-IsReady c d first ready))

  -- A statement whose code is that of an expression and a store.
  stored-Placed :
      (name : Str) (e : Expr) (st : Statement) (c d : Compiler) (table : SymbolTable)
      → compile_expression host e c ≡ ok d
      → IsReady c
      → CleanExpr e
      → table.parents ≡ c.symbol_table.parents
      → IsReady (record (compile_store host name d) { symbol_table = table })
      → room_for st ≡ depth e
      → ((pool : List Value) (brk cont pc i : ℕ) (xs : List ℕ)
          → Code pool e xs
          → Holds pool i (str name)
          → StatementCode pool brk cont pc st (xs ++ with_operand op_store_var i))
      → Placed (CodeForStatement st) c (record (compile_store host name d) { symbol_table = table })
  stored-Placed name e st c d table eq ready clean outer left fits make =
      Emits-Placed c (compile_store host name d) table (value_stored name e c d eq ready clean)
        outer left
        λ pool brk cont pc bs j room.
          let k = j.of_second in
          let e' = j.split ∙ ap (λ (l : List ℕ). j.first ++ l) k.bytes_eq in
          subst (StatementCode pool brk cont pc st) (sym e')
            (make pool brk cont pc k.place j.first (j.of_first (omega (arith, fits))) k.holds)

  pub return-Placed :
      (e : Expr) (c c' : Compiler)
      → compile_return host e c ≡ ok c'
      → IsReady c
      → CleanExpr e
      → Placed (CodeForStatement (Statement.return_statement e)) c c'
  unfolding compile_return room_for
  return-Placed e c c' eq ready clean =
      let out = value_and op_return e c c' eq ready clean in
      Emits-Placed c c' c'.symbol_table out (ap (λ (t : SymbolTable). t.parents) out.table)
        (Emits-IsReady c c' out ready)
        λ pool brk cont pc bs j room.
          let e' = j.split ∙ ap (λ (l : List ℕ). j.first ++ l) j.of_second in
          subst (StatementCode pool brk cont pc (Statement.return_statement e)) (sym e')
            (return_statement brk cont pc (j.of_first room))

  pub expression-Placed :
      (e : Expr) (c c' : Compiler)
      → compile_expression_statement host e c ≡ ok c'
      → IsReady c
      → CleanExpr e
      → Placed (CodeForStatement (Statement.expression_statement e)) c c'
  unfolding compile_expression_statement room_for
  expression-Placed e c c' eq ready clean =
      let out = value_and op_pop e c c' eq ready clean in
      Emits-Placed c c' c'.symbol_table out (ap (λ (t : SymbolTable). t.parents) out.table)
        (Emits-IsReady c c' out ready)
        λ pool brk cont pc bs j room.
          let e' = j.split ∙ ap (λ (l : List ℕ). j.first ++ l) j.of_second in
          subst (StatementCode pool brk cont pc (Statement.expression_statement e)) (sym e')
            (expression_statement brk cont pc (j.of_first room))

  pub reassign-Placed :
      (name : Str) (e : Expr) (c c' : Compiler)
      → compile_reassign host name e c ≡ ok c'
      → IsReady c
      → CleanExpr e
      → Placed (CodeForStatement (Statement.reassign_statement name e)) c c'
  unfolding compile_reassign room_for
  reassign-Placed name e c c' eq ready clean =
      let (_, _, rest) =
        >>=-eq-ok (guard (is_resolved (resolve name c.symbol_table)) undeclared_variable) _ eq in
      let (d, compiled, last) =
        >>=-eq-ok (compile_expression host e c) (λ d. ok (compile_store host name d)) rest in
      let same : compile_store host name d ≡ c' = cc in
      let out = value_stored name e c d compiled ready clean in
      subst (Placed (CodeForStatement (Statement.reassign_statement name e)) c) same (
        stored-Placed name e (Statement.reassign_statement name e) c d
          (compile_store host name d).symbol_table compiled ready clean
          (ap (λ (t : SymbolTable). t.parents) out.table)
          (Emits-IsReady c (compile_store host name d) out ready) refl
          λ pool brk cont pc i xs code k. reassign_statement brk cont pc name i code k)

  -- The place that compileAssignStatement gives to a new name holds the name.
  stored_found :
      (name : Str) (d : Compiler)
      → IsReady d
      → get_elem? (compile_store host name d).constants (add_constant host (str name) d).0
        ≡ some (str name)
  unfolding compile_store emit_with_operand
  stored_found name d ready =
      (add_constant-Added host law (str name) d ready.clean (str-IsClean name)).found

  define-parents : (name : Str) (i : ℕ) (t : SymbolTable) → (define name i t).parents ≡ t.parents
  unfolding define put_symbol
  define-parents name i t = refl

  pub assign-Placed :
      (name : Str) (e : Expr) (c c' : Compiler)
      → compile_assign host name e c ≡ ok c'
      → IsReady c
      → CleanExpr e
      → Placed (CodeForStatement (Statement.assign_statement name e)) c c'
  unfolding compile_assign room_for
  assign-Placed name e c c' eq ready clean =
      let (_, _, rest) =
        >>=-eq-ok
          (guard (not (is_redeclared (resolve_local name c.symbol_table))) redeclared_variable) _
          eq in
      let (d, compiled, last) = >>=-eq-ok (compile_expression host e c) _ rest in
      go d compiled (is_resolved (resolve name (compile_store host name d).symbol_table)) last
    where
      go :
          (d : Compiler)
          → compile_expression host e c ≡ ok d
          → (b : Bool)
          → Compiled
              (elim b [
                | true ↦ compile_store host name d
                | false ↦
                    let stored = compile_store host name d in
                    record stored {
                      symbol_table =
                          define name (add_constant host (str name) d).0 stored.symbol_table;
                    }
              ])
              c'
          → Placed (CodeForStatement (Statement.assign_statement name e)) c c'
      go d compiled true last =
          let stored = compile_store host name d in
          let same : stored ≡ c' = cc in
          let out = value_stored name e c d compiled ready clean in
          subst (Placed (CodeForStatement (Statement.assign_statement name e)) c) same (
            stored-Placed name e (Statement.assign_statement name e) c d stored.symbol_table
              compiled ready clean (ap (λ (t : SymbolTable). t.parents) out.table)
              (Emits-IsReady c stored out ready) refl
              λ pool brk cont pc i xs code k. assign_statement brk cont pc name i code k)
      go d compiled false last =
          let stored = compile_store host name d in
          let i = (add_constant host (str name) d).0 in
          let table = define name i stored.symbol_table in
          let same : record stored { symbol_table = table } ≡ c' = cc in
          let out = value_stored name e c d compiled ready clean in
          let first = compile_expression-Emits host law e c d compiled ready clean in
          subst (Placed (CodeForStatement (Statement.assign_statement name e)) c) same (
            stored-Placed name e (Statement.assign_statement name e) c d table compiled ready clean
              (define-parents name i stored.symbol_table
                ∙ ap (λ (t : SymbolTable). t.parents) out.table)
              (define-IsReady name i stored (Emits-IsReady c stored out ready)
                (stored_found name d (Emits-IsReady c d first ready)))
              refl λ pool brk cont pc i xs code k. assign_statement brk cont pc name i code k)
