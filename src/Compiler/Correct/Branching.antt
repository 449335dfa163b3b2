-- ===== src/Compiler/Correct/Branching.antt =====
-- What compiling an if and a while statement does, from what compiling their parts does.
use glyphlang.Prelude.{
  ℕ, ◌+◌, ◌<◌, ◌^◌, ◌≡◌, refl, sym, ◌∙◌, ap, subst, List, [], ◌++◌, arith, length, length-append,
}
use glyphlang.Vm.Value.{Value}
use glyphlang.Vm.Opcode.{op_jump, op_jump_if_false}
use glyphlang.Ast.{Expr, Statement, Block}
use glyphlang.Compiler.Symbols.{SymbolTable}
use glyphlang.Compiler.State.{Compiler, emit_with_operand}
use glyphlang.Compiler.State.Pool.{Extends-trans}
use glyphlang.Compiler.Expression.{to_u32}
use glyphlang.Compiler.Control.{patch_jump, pop_loop, push_loop}
use glyphlang.Compiler.Correct.Code.{with_operand}
use glyphlang.Compiler.Correct.Emission.{IsReady, Emits}
use glyphlang.Compiler.Correct.Joining.{CodeFor}
use glyphlang.Compiler.Correct.Parts.{length-with_operand}
use glyphlang.Compiler.Correct.Pieces.{Pieces}
use glyphlang.Compiler.Correct.Patches.{Pieces-if, if_lengths, while_size, Pieces-while}
use glyphlang.Compiler.Correct.Placement.{
  Property, Placed, with_breaks, with_breaks-nil, with_breaks-append, continue_of,
  continue_of-with_breaks,
}
use glyphlang.Compiler.Correct.Leaves.{CodeForStatement}
use glyphlang.Compiler.Correct.Nesting.{CodeForBlock, if_code, while_code, pop_loop-eq}

-- A property at another place.
at_place :
    (P : Property) {pool : List Value} {brk cont cont' pc pc' : ℕ} {bs : List ℕ}
    → cont ≡ cont'
    → pc ≡ pc'
    → P pool brk cont pc bs
    → P pool brk cont' pc' bs
at_place P {pool} {brk} {cont} {cont'} {pc} {pc'} {bs} e q p =
    subst (λ k. P pool brk cont' k bs) q (subst (λ k. P pool brk k pc bs) e p)

-- The length of what a piece has grown to.
length-Pieces :
    {l m : List ℕ} {bs : ℕ → List ℕ} {is : List ℕ} (t : ℕ)
    → Pieces l m bs is
    → length m ≡ length l + length (bs t)
length-Pieces {l} {m} {bs} t a = omega (arith, ap length a.code, length-append l (bs 0), a.size t)

length-emitted : (op : _) (n : ℕ) (l : List ℕ) → length (l ++ with_operand op n) ≡ length l + 5
length-emitted op n l = omega (arith, length-append l (with_operand op n), length-with_operand op n)

-- compileIfStatement: `a` after the condition, `b` after the then block, `d` after the else block.
pub if-Placed :
    (e : Expr) (t f : Block) (c a b d : Compiler)
    → Emits (CodeFor e) c a
    → Placed (CodeForBlock t) (emit_with_operand op_jump_if_false 0 a) b
    → Placed
        (CodeForBlock f)
        (patch_jump
          (length a.code)
          (length (emit_with_operand op_jump 0 b).code)
          (emit_with_operand op_jump 0 b))
        d
    → Placed
        (CodeForStatement (Statement.if_statement e t f))
        c
        (patch_jump (length b.code) (length d.code) d)
unfolding emit_with_operand patch_jump
if-Placed e t f c a b d test then_part else_part =
    let else_at = length (b.code ++ with_operand op_jump 0) in
    let end_at = length d.code in
    let pieces =
      Pieces-if c.code a.code b.code d.code test.bytes test.code then_part.pieces else_at
        else_part.pieces end_at in
    let first : length a.code ≡ length c.code + length test.bytes =
      omega (arith, ap length test.code, length-append c.code test.bytes) in
    let middle : (k : ℕ)
        → length b.code ≡ length c.code + length test.bytes + 5 + length (then_part.bytes k) =
      λ k. omega (
        arith,
        first,
        length-Pieces k then_part.pieces,
        length-emitted op_jump_if_false 0 a.code,
      ) in
    record {
      bytes = _;
      jumps = then_part.jumps ++ else_part.jumps;
      pieces = pieces;
      loops =
          else_part.loops
          ∙ ap (with_breaks else_part.jumps)
              (then_part.loops ∙ ap (with_breaks then_part.jumps) test.loops)
          ∙ with_breaks-append then_part.jumps else_part.jumps c.loop_stack;
      outer = else_part.outer ∙ then_part.outer ∙ ap (λ (s : SymbolTable). s.parents) test.table;
      ready = record { names = else_part.ready.names; clean = else_part.ready.clean };
      grows =
          Extends-trans c.constants a.constants d.constants test.grows
            (Extends-trans a.constants b.constants d.constants then_part.grows else_part.grows);
      implements = λ pool brk x small fits k u.
          let (patched, whole) =
            if_lengths a.code b.code d.code then_part.pieces else_at else_part.pieces end_at in
          let ends : end_at ≡ length b.code + 5 + length (else_part.bytes brk) =
            omega (arith, length-Pieces brk else_part.pieces, patched) in
          let at_else : else_at ≡ length b.code + 5 = length-emitted op_jump 0 b.code in
          let small_end : end_at < 2 ^ 32 = omega (arith, whole, fits) in
          let cont : continue_of a.loop_stack ≡ continue_of c.loop_stack =
            ap continue_of test.loops in
          let cont' : continue_of b.loop_stack ≡ continue_of c.loop_stack =
            ap continue_of then_part.loops
            ∙ continue_of-with_breaks then_part.jumps a.loop_stack
            ∙ cont in
          let grown = Extends-trans b.constants d.constants pool else_part.grows x in
          if_code pool brk (continue_of c.loop_stack) (length c.code) else_at end_at e t f
            test.bytes (then_part.bytes brk) (else_part.bytes brk)
            (test.implements pool (Extends-trans a.constants b.constants pool then_part.grows grown)
              small)
            (at_place (CodeForBlock t) cont
              (omega (arith, first, length-emitted op_jump_if_false 0 a.code))
              (then_part.implements pool brk grown small (omega (arith, ends, small_end)) k
                (omega (arith, cont, u))))
            (omega (arith, at_else, middle brk))
            (at_place (CodeForBlock f) cont' (omega (arith, patched, at_else))
              (else_part.implements pool brk x small small_end k (omega (arith, cont', u))))
            (omega (arith, ends, at_else)) small_end;
    }

-- compileWhileStatement: `a` after the condition, `b` after the body.
pub while-Placed :
    (e : Expr) (body : Block) (c a b : Compiler)
    → IsReady c
    → Emits (CodeFor e) c a
    → Placed
        (CodeForBlock body)
        (push_loop (length c.code) (emit_with_operand op_jump_if_false 0 a))
        b
    → let d = emit_with_operand op_jump (to_u32 (length c.code)) b in
      Placed
        (CodeForStatement (Statement.while_statement e body))
        c
        (pop_loop (length d.code) (patch_jump (length a.code) (length d.code) d))
unfolding emit_with_operand patch_jump push_loop
while-Placed e body c a b ready test part =
    let d = emit_with_operand op_jump (to_u32 (length c.code)) b in
    let end_at = length d.code in
    let pieces =
      Pieces-while c.code a.code b.code test.bytes test.code part.pieces (to_u32 (length c.code))
        end_at in
    let first : length a.code ≡ length c.code + length test.bytes =
      omega (arith, ap length test.code, length-append c.code test.bytes) in
    let ends : (k : ℕ)
        → end_at ≡ length c.code + length test.bytes + 5 + length (part.bytes k) + 5 =
      λ k. omega (
        arith,
        first,
        length-Pieces k part.pieces,
        length-emitted op_jump_if_false 0 a.code,
        length-emitted op_jump (to_u32 (length c.code)) b.code,
      ) in
    subst (Placed (CodeForStatement (Statement.while_statement e body)) c)
      (sym (pop_loop-eq end_at (patch_jump (length a.code) end_at d) _ a.loop_stack part.loops))
      (record {
        bytes = _;
        jumps = [];
        pieces = pieces;
        loops = test.loops ∙ sym (with_breaks-nil c.loop_stack);
        outer = part.outer ∙ ap (λ (s : SymbolTable). s.parents) test.table;
        ready = record { names = part.ready.names; clean = part.ready.clean };
        grows = Extends-trans c.constants a.constants b.constants test.grows part.grows;
        implements = λ pool brk x small fits k u.
            let small_end : end_at < 2 ^ 32 = omega (
              arith,
              fits,
              length-Pieces brk pieces,
              while_size test.bytes (part.bytes end_at) (to_u32 end_at) (to_u32 (length c.code)),
              ends end_at,
            ) in
            while_code pool brk (continue_of c.loop_stack) (length c.code) end_at e body test.bytes
              (part.bytes end_at)
              (test.implements pool (Extends-trans a.constants b.constants pool part.grows x) small)
              (at_place (CodeForBlock body) refl
                (omega (arith, first, length-emitted op_jump_if_false 0 a.code))
                (part.implements pool end_at x small
                  (omega (arith, small_end, length-emitted op_jump (to_u32 (length c.code)) b.code))
                  small_end (omega (arith, small_end, ends 0))))
              (ends end_at) small_end;
      })
