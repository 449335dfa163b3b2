-- ===== src/Compiler/Correct/Relocated.antt =====
-- Code of statements after adjustJumpTargets is code for the same statements, further on by the
-- length of the header.
use glyphlang.Prelude.{
  ℕ, ◌+◌, ◌^◌, ◌<◌, ◌≡◌, refl, subst, List, [], ◌++◌, arith, length, length-append,
}
use glyphlang.Vm.Value.{Value}
use glyphlang.Vm.Opcode.{opcode_byte, op_store_var, op_pop, op_return, op_jump, op_jump_if_false}
use glyphlang.Ast.{Expr, Statement, Block}
use glyphlang.Compiler.Container.{is_jump, has_operand}
use glyphlang.Compiler.Correct.Code.{Code, plain, with_operand}
use glyphlang.Compiler.Correct.Relocation.{
  Relocates, Relocates-nil, Relocates-append, Relocates-plain, Relocates-operand, Relocates-jump,
  Code-Relocates,
}
use glyphlang.Compiler.Correct.StatementCode.{
  StatementCode, BlockCode, assign_statement, reassign_statement, return_statement,
  expression_statement, validation_statement, break_statement, continue_statement, if_statement,
  while_statement, no_statements, statement,
}
use glyphlang.Compiler.Correct.StatementBodies.{if_length, while_length}

-- What the pass makes of bytes, with a property and of the same length.
pub record Moved (header : ℕ) (P : List ℕ → Type 0) (xs : List ℕ) : Type 0 where
  pub bytes : List ℕ
  pub relocates : Relocates header xs bytes
  pub holds : P bytes

module _ (header : ℕ) (pool : List Value) where
  -- A statement without blocks, whose bytes stay as they are.
  kept : {P : List ℕ → Type 0} (xs : List ℕ) → Relocates header xs xs → P xs → Moved header P xs
  kept xs r p = record { bytes = xs; relocates = r; holds = p }

  jump_moved :
      {P : List ℕ → Type 0} (n : ℕ)
      → n + header < 2 ^ 32
      → P (with_operand op_jump (n + header))
      → Moved header P (with_operand op_jump n)
  unfolding is_jump opcode_byte
  jump_moved n small p = record {
    bytes = with_operand op_jump (n + header);
    relocates = Relocates-jump header op_jump n refl small;
    holds = p;
  }

  stored : (i : ℕ) → Relocates header (with_operand op_store_var i) (with_operand op_store_var i)
  unfolding is_jump has_operand opcode_byte
  stored i = Relocates-operand header op_store_var i refl refl

  returned : Relocates header (plain op_return) (plain op_return)
  unfolding is_jump has_operand opcode_byte
  returned = Relocates-plain header op_return refl refl

  popped : Relocates header (plain op_pop) (plain op_pop)
  unfolding is_jump has_operand opcode_byte
  popped = Relocates-plain header op_pop refl refl

  -- Code for a statement and for a block, at a place and with targets that are `header` further on.
  abbrev Further : ℕ → ℕ → ℕ → Statement → List ℕ → Type 0
  Further brk cont pc s =
      Moved header (StatementCode pool (brk + header) (cont + header) (pc + header) s)

  abbrev FurtherBlock : ℕ → ℕ → ℕ → Block → List ℕ → Type 0
  FurtherBlock brk cont pc b =
      Moved header (BlockCode pool (brk + header) (cont + header) (pc + header) b)

  -- A block at a place that is written otherwise.
  block_at :
      {brk cont pc pc' : ℕ} {b : Block} {xs : List ℕ}
      → pc ≡ pc'
      → BlockCode pool brk cont pc b xs
      → BlockCode pool brk cont pc' b xs
  block_at {brk} {cont} {b = b} {xs} e code = subst (λ p. BlockCode pool brk cont p b xs) e code

  if_moved :
      (brk cont pc else_at end_at : ℕ) {e : Expr} {t f : Block} (xs ys zs : List ℕ)
      → Code pool e xs
      → FurtherBlock brk cont (pc + length xs + 5) t ys
      → else_at ≡ pc + length xs + 5 + length ys + 5
      → FurtherBlock brk cont else_at f zs
      → end_at ≡ else_at + length zs
      → end_at + header < 2 ^ 32
      → Further brk cont pc (Statement.if_statement e t f) (
          xs
          ++ (with_operand op_jump_if_false else_at ++ (ys ++ (with_operand op_jump end_at ++ zs))))
  unfolding is_jump opcode_byte
  if_moved brk cont pc else_at end_at {e} {t} {f} xs ys zs code then_part p else_part q small =
      let ys' = then_part.bytes in
      let zs' = else_part.bytes in
      let bound : else_at + header < 2 ^ 32 = omega (arith, q, small) in
      record {
        bytes =
            xs
            ++ (with_operand op_jump_if_false (else_at + header)
                ++ (ys' ++ (with_operand op_jump (end_at + header) ++ zs')));
        relocates = Relocates-append header (Code-Relocates header code) (
            Relocates-append header (Relocates-jump header op_jump_if_false else_at refl bound) (
              Relocates-append header then_part.relocates (
                Relocates-append header (Relocates-jump header op_jump end_at refl small)
                  else_part.relocates)));
        holds =
            if_statement (brk + header) (cont + header) (pc + header) (else_at + header)
              (end_at + header) code (block_at (omega arith) then_part.holds)
              (omega (arith, p, then_part.relocates.size)) else_part.holds
              (omega (arith, q, else_part.relocates.size)) small;
      }

  while_moved :
      (brk cont pc end_at : ℕ) {e : Expr} {body : Block} (xs ys : List ℕ)
      → Code pool e xs
      → FurtherBlock end_at pc (pc + length xs + 5) body ys
      → end_at ≡ pc + length xs + 5 + length ys + 5
      → end_at + header < 2 ^ 32
      → Further brk cont pc
          (Statement.while_statement e body)
          (xs ++ (with_operand op_jump_if_false end_at ++ (ys ++ with_operand op_jump pc)))
  unfolding is_jump opcode_byte
  while_moved brk cont pc end_at {e} {body} xs ys code part p small =
      let ys' = part.bytes in
      let bound : pc + header < 2 ^ 32 = omega (arith, p, small) in
      record {
        bytes =
            xs
            ++ (with_operand op_jump_if_false (end_at + header)
                ++ (ys' ++ with_operand op_jump (pc + header)));
        relocates = Relocates-append header (Code-Relocates header code) (
            Relocates-append header (Relocates-jump header op_jump_if_false end_at refl small) (
              Relocates-append header part.relocates
                (Relocates-jump header op_jump pc refl bound)));
        holds =
            while_statement (brk + header) (cont + header) (pc + header) (end_at + header) code
              (block_at (omega arith) part.holds) (omega (arith, p, part.relocates.size)) small;
      }

  mutual
    StatementCode-Moved :
        {brk cont pc : ℕ} {st : Statement} {bs : List ℕ}
        → StatementCode pool brk cont pc st bs
        → brk + header < 2 ^ 32
        → cont + header < 2 ^ 32
        → pc + length bs + header < 2 ^ 32
        → Further brk cont pc st bs
    StatementCode-Moved (assign_statement brk cont pc name i code k) b c fits =
        kept _ (Relocates-append header (Code-Relocates header code) (stored i))
          (assign_statement _ _ _ name i code k)
    StatementCode-Moved (reassign_statement brk cont pc name i code k) b c fits =
        kept _ (Relocates-append header (Code-Relocates header code) (stored i))
          (reassign_statement _ _ _ name i code k)
    StatementCode-Moved (return_statement brk cont pc code) b c fits =
        kept _ (Relocates-append header (Code-Relocates header code) returned)
          (return_statement _ _ _ code)
    StatementCode-Moved (expression_statement brk cont pc code) b c fits =
        kept _ (Relocates-append header (Code-Relocates header code) popped)
          (expression_statement _ _ _ code)
    StatementCode-Moved (validation_statement brk cont pc) b c fits =
        kept [] (Relocates-nil header) (validation_statement _ _ _)
    StatementCode-Moved (break_statement brk cont pc small) b c fits =
        jump_moved brk b (break_statement _ _ _ b)
    StatementCode-Moved (continue_statement brk cont pc small) b c fits =
        jump_moved cont c (continue_statement _ _ _ c)
    StatementCode-Moved
          (if_statement brk cont pc else_at end_at {xs = xs} {ys} {zs} code t p f q small) b c
          fits =
        let ends = if_length end_at else_at pc xs ys zs p q in
        if_moved brk cont pc else_at end_at xs ys zs code
          (BlockCode-Moved t b c (omega (arith, ends, p, q, fits))) p
          (BlockCode-Moved f b c (omega (arith, ends, q, fits))) q (omega (arith, ends, fits))
    StatementCode-Moved (while_statement brk cont pc end_at {xs = xs} {ys} code body p small) b c
          fits =
        let ends = while_length end_at pc xs ys p in
        let bound : end_at + header < 2 ^ 32 = omega (arith, ends, fits) in
        while_moved brk cont pc end_at xs ys code
          (BlockCode-Moved body bound (omega (arith, p, bound)) (omega (arith, p, bound))) p bound

    pub BlockCode-Moved :
        {brk cont pc : ℕ} {b : Block} {bs : List ℕ}
        → BlockCode pool brk cont pc b bs
        → brk + header < 2 ^ 32
        → cont + header < 2 ^ 32
        → pc + length bs + header < 2 ^ 32
        → FurtherBlock brk cont pc b bs
    BlockCode-Moved (no_statements brk cont pc) b c fits =
        kept [] (Relocates-nil header) (no_statements _ _ _)
    BlockCode-Moved (statement brk cont pc {xs = xs} {ys} code codes) b c fits =
        let whole = length-append {0} xs ys in
        let first = StatementCode-Moved code b c (omega (arith, whole, fits)) in
        let rest = BlockCode-Moved codes b c (omega (arith, whole, fits)) in
        record {
          bytes = first.bytes ++ rest.bytes;
          relocates = Relocates-append header first.relocates rest.relocates;
          holds =
              statement _ _ _ first.holds
                (block_at (omega (arith, first.relocates.size)) rest.holds);
        }
