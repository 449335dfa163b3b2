-- ===== src/Compiler/Correct/Placement.antt =====
-- What compiling a statement does to the state of the compiler, and the statements that do not
-- hold others.
use glyphlang.Prelude.{
  ℕ, ◌+◌, ◌≤◌, ◌<◌, ◌^◌, ◌≡◌, refl, sym, ◌∙◌, ap, subst, List, [], ◌∷◌, ◌++◌, append_assoc,
  append-nil, some, arith, length, length-append, get_elem?, Bool-cases, inl, inr,
}
use glyphlang.Prelude.Maps.{Str, str_eq, str_eq→eq}
use glyphlang.Vm.Value.{Value, str, Host}
use glyphlang.Vm.Opcode.{op_store_var}
use glyphlang.Compiler.Symbols.{Symbol, SymbolTable, define, plain_symbol}
use glyphlang.Compiler.Symbols.Laws.{resolve-define}
use glyphlang.Compiler.State.{Compiler, LoopContext, add_constant, emit_with_operand}
use glyphlang.Compiler.State.Pool.{FloatEqLaw, Extends, Extends-trans, add_constant-Added}
use glyphlang.Compiler.Expression.{to_u32}
use glyphlang.Compiler.Statement.{compile_store}
use glyphlang.Compiler.Correct.Code.{with_operand}
use glyphlang.Compiler.Correct.Emission.{IsReady, Emits, Constant, place-Holds}
use glyphlang.Compiler.Correct.Whole.{str-IsClean}
use glyphlang.Compiler.Correct.Pieces.{Pieces, Pieces-fixed, Pieces-seq}

-- The loop stack with more breaks of the innermost loop.
abbrev pub with_breaks : List ℕ → List LoopContext → List LoopContext
with_breaks js [] = []
with_breaks js (loop ∷ loops) = record loop { break_jumps = loop.break_jumps ++ js } ∷ loops

-- The target of a continue.
abbrev pub continue_of : List LoopContext → ℕ
continue_of [] = 0
continue_of (loop ∷ loops) = loop.continue_target

pub with_breaks-nil : (loops : List LoopContext) → with_breaks [] loops ≡ loops
with_breaks-nil [] = refl
with_breaks-nil (loop ∷ loops) =
    ap (λ (js : List ℕ). record loop { break_jumps = js } ∷ loops) (append-nil loop.break_jumps)

pub with_breaks-append :
    (is js : List ℕ) (loops : List LoopContext)
    → with_breaks js (with_breaks is loops) ≡ with_breaks (is ++ js) loops
with_breaks-append is js [] = refl
with_breaks-append is js (loop ∷ loops) =
    ap (λ (ks : List ℕ). record loop { break_jumps = ks } ∷ loops)
      (append_assoc loop.break_jumps is js)

pub continue_of-with_breaks :
    (js : List ℕ) (loops : List LoopContext)
    → continue_of (with_breaks js loops) ≡ continue_of loops
continue_of-with_breaks js [] = refl
continue_of-with_breaks js (loop ∷ loops) = refl

-- A property of bytes at a place in the code, over a pool of constants, with the targets of break
-- and continue: its arguments are the pool, these targets, the place and the bytes.
abbrev pub Property : Type 1
Property = List Value → ℕ → ℕ → ℕ → List ℕ → Type 0

-- From `c` to `c'` bytes were appended that have the property once the breaks are patched; the
-- scopes around the current one are as before, every name in scope has its constant, and the
-- breaks are noted in the innermost loop.
pub record Placed (P : Property) (c c' : Compiler) : Type 0 where
  pub bytes : ℕ → List ℕ
  pub jumps : List ℕ
  pub pieces : Pieces c.code c'.code bytes jumps
  pub loops : c'.loop_stack ≡ with_breaks jumps c.loop_stack
  pub outer : c'.symbol_table.parents ≡ c.symbol_table.parents
  pub ready : IsReady c'
  pub grows : Extends c.constants c'.constants
  pub implements :
      (pool : List Value) (brk : ℕ)
      → Extends c'.constants pool
      → length pool ≤ 2 ^ 32
      → length c'.code < 2 ^ 32
      → brk < 2 ^ 32
      → continue_of c.loop_stack < 2 ^ 32
      → P pool brk (continue_of c.loop_stack) (length c.code) (bytes brk)

-- Code without jumps, with the symbol table that is left.
pub Emits-Placed :
    {P : Property} {Q : List Value → List ℕ → Type 0} (c d : Compiler) (table : SymbolTable)
    → Emits Q c d
    → table.parents ≡ c.symbol_table.parents
    → IsReady (record d { symbol_table = table })
    → ((pool : List Value) (brk cont pc : ℕ) (bs : List ℕ) → Q pool bs → P pool brk cont pc bs)
    → Placed P c (record d { symbol_table = table })
Emits-Placed c d table e outer ready f = record {
  bytes = λ t. e.bytes;
  jumps = [];
  pieces = Pieces-fixed c.code d.code e.bytes e.code;
  loops = e.loops ∙ sym (with_breaks-nil c.loop_stack);
  outer = outer;
  ready = ready;
  grows = e.grows;
  implements = λ pool brk x small fits b k. f pool brk _ _ e.bytes (e.implements pool x small);
}

pub Placed-seq :
    {P Q R : Property} (a b c : Compiler)
    → Placed P a b
    → Placed Q b c
    → ((pool : List Value) (brk cont pc : ℕ) (xs ys : List ℕ)
        → P pool brk cont pc xs
        → Q pool brk cont (pc + length xs) ys
        → R pool brk cont pc (xs ++ ys))
    → Placed R a c
Placed-seq {Q = Q} a b c e f join =
    let cont : continue_of b.loop_stack ≡ continue_of a.loop_stack =
      ap continue_of e.loops ∙ continue_of-with_breaks e.jumps a.loop_stack in
    let far : (t : ℕ) → length b.code ≡ length a.code + length (e.bytes t) = λ t.
      omega (arith, ap length e.pieces.code, length-append a.code (e.bytes 0), e.pieces.size t) in
    record {
      bytes = λ t. e.bytes t ++ f.bytes t;
      jumps = e.jumps ++ f.jumps;
      pieces = Pieces-seq e.pieces f.pieces;
      loops =
          f.loops
          ∙ ap (with_breaks f.jumps) e.loops
          ∙ with_breaks-append e.jumps f.jumps a.loop_stack;
      outer = f.outer ∙ e.outer;
      ready = f.ready;
      grows = Extends-trans a.constants b.constants c.constants e.grows f.grows;
      implements = λ pool brk x small fits k u.
          let shorter : length b.code ≤ length c.code =
            omega (arith, ap length f.pieces.code, length-append b.code (f.bytes 0)) in
          join pool brk (continue_of a.loop_stack) (length a.code) (e.bytes brk) (f.bytes brk)
            (e.implements pool brk (Extends-trans b.constants c.constants pool f.grows x) small
              (omega arith) k u)
            (subst (λ p. Q pool brk (continue_of a.loop_stack) p (f.bytes brk)) (far brk)
              (subst (λ q. Q pool brk q (length b.code) (f.bytes brk)) cont
                (f.implements pool brk x small fits k (omega arith))));
    }

-- The define of a name with its constant keeps the compiler ready.
pub define-IsReady :
    (name : Str) (i : ℕ) (c : Compiler)
    → IsReady c
    → get_elem? c.constants i ≡ some (str name)
    → IsReady (record c { symbol_table = define name i c.symbol_table })
define-IsReady name i c ready found = record {
  names = λ j s h. elim (Bool-cases (str_eq name j)) [
    | inl same ↦
        let here : some (plain_symbol name c.symbol_table.current.kind i) ≡ some s =
          rw (resolve-define name j i c.symbol_table, same) at h in
        let known : plain_symbol name c.symbol_table.current.kind i ≡ s = cc in
        subst (λ (k : Symbol). get_elem? c.constants k.index ≡ some (str j)) known
          (found ∙ ap (λ (n : Str). some (str n)) (str_eq→eq name j same))
    | inr other ↦ ready.names j s (rw (resolve-define name j i c.symbol_table, other) at h)
  ];
  clean = ready.clean;
}

module _ (host : Host) (law : FloatEqLaw host) where
  pub compile_store-Emits :
      (name : Str) (c : Compiler)
      → IsReady c
      → Emits (Constant op_store_var (str name)) c (compile_store host name c)
  unfolding compile_store emit_with_operand
  compile_store-Emits name c ready =
      let added = add_constant-Added host law (str name) c ready.clean (str-IsClean name) in
      let i = (add_constant host (str name) c).0 in
      let c' = (add_constant host (str name) c).1 in
      record {
        bytes = with_operand op_store_var (to_u32 i);
        code = ap (λ (l : List ℕ). l ++ with_operand op_store_var (to_u32 i)) added.code;
        table = added.table;
        loops = added.loops;
        grows = added.grows;
        clean = added.clean;
        implements = λ pool x small. record {
          place = to_u32 i;
          holds = place-Holds c'.constants pool i (str name) added.found x small;
          bytes_eq = refl;
        };
      }
