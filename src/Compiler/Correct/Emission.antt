-- ===== src/Compiler/Correct/Emission.antt =====
-- What the compiler appends for an expression is code for it.
use glyphlang.Prelude.{
  ℕ, ◌≤◌, ◌^◌, ◌≡◌, refl, ◌∙◌, ap, subst, List, ◌++◌, append_assoc, Option, some, none, ok, ◌>>=◌,
  arith, length, get_elem?, lt-length_of_some, or_fail,
}
use glyphlang.Prelude.Maps.{Str}
use glyphlang.Vm.Value.{Value, str, Host}
use glyphlang.Vm.Opcode.{Opcode, op_push, op_load_var}
use glyphlang.Compiler.Symbols.{Symbol, resolve}
use glyphlang.Compiler.State.{Compiler, CompileError, add_constant, emit, emit_with_operand}
use glyphlang.Compiler.State.Pool.{
  IsClean, CleanPool, FloatEqLaw, Extends, Extends-refl, Extends-trans, get_elem?-Extends,
  add_constant-Added,
}
use glyphlang.Compiler.Expression.{to_u32, compile_constant, compile_variable}
use glyphlang.Compiler.Correct.Code.{Holds, plain, with_operand}

-- The state in which an expression may be compiled: every name in scope has its constant.
pub record IsReady (c : Compiler) : Type 0 where
  pub names :
      (name : Str) (s : Symbol)
      → resolve name c.symbol_table ≡ some s
      → get_elem? c.constants s.index ≡ some (str name)
  pub clean : CleanPool c.constants

-- From `c` to `c'` bytes were appended that have the property `P` over every pool that the final
-- pool of the compiler grows into.
pub record Emits (P : List Value → List ℕ → Type 0) (c c' : Compiler) : Type 0 where
  pub bytes : List ℕ
  pub code : c'.code ≡ c.code ++ bytes
  pub table : c'.symbol_table ≡ c.symbol_table
  pub loops : c'.loop_stack ≡ c.loop_stack
  pub grows : Extends c.constants c'.constants
  pub clean : CleanPool c'.constants
  pub implements :
      (pool : List Value) → Extends c'.constants pool → length pool ≤ 2 ^ 32 → P pool bytes

pub Emits-IsReady :
    {P : List Value → List ℕ → Type 0} (c c' : Compiler) → Emits P c c' → IsReady c → IsReady c'
Emits-IsReady c c' e ready = record {
  names = λ name s h.
      get_elem?-Extends c.constants c'.constants s.index e.grows
        (ready.names name s (rw e.table at h));
  clean = e.clean;
}

pub Emits-map :
    {P Q : List Value → List ℕ → Type 0} (c c' : Compiler)
    → ((pool : List Value) (bs : List ℕ) → P pool bs → Q pool bs)
    → Emits P c c'
    → Emits Q c c'
Emits-map c c' f e = record {
  bytes = e.bytes;
  code = e.code;
  table = e.table;
  loops = e.loops;
  grows = e.grows;
  clean = e.clean;
  implements = λ pool x small. f pool e.bytes (e.implements pool x small);
}

-- One piece of code behind another.
pub record Joined (P Q : List Value → List ℕ → Type 0) (pool : List Value) (bs : List ℕ)
    : Type 0 where
  pub first : List ℕ
  pub second : List ℕ
  pub split : bs ≡ first ++ second
  pub of_first : P pool first
  pub of_second : Q pool second

pub Emits-seq :
    {P Q : List Value → List ℕ → Type 0} (a b c : Compiler)
    → Emits P a b
    → Emits Q b c
    → Emits (Joined P Q) a c
Emits-seq a b c e f = record {
  bytes = e.bytes ++ f.bytes;
  code = f.code ∙ ap (λ (l : List ℕ). l ++ f.bytes) e.code ∙ append_assoc a.code e.bytes f.bytes;
  table = f.table ∙ e.table;
  loops = f.loops ∙ e.loops;
  grows = Extends-trans a.constants b.constants c.constants e.grows f.grows;
  clean = f.clean;
  implements = λ pool x small. record {
    first = e.bytes;
    second = f.bytes;
    split = refl;
    of_first = e.implements pool (Extends-trans b.constants c.constants pool f.grows x) small;
    of_second = f.implements pool x small;
  };
}

abbrev pub Just : List ℕ → List Value → List ℕ → Type 0
Just xs pool bs = bs ≡ xs

pub emit-Emits :
    (op : Opcode) (c : Compiler) → CleanPool c.constants → Emits (Just (plain op)) c (emit op c)
unfolding emit
emit-Emits op c clean = record {
  bytes = plain op;
  code = refl;
  table = refl;
  loops = refl;
  grows = Extends-refl c.constants;
  clean = clean;
  implements = λ pool x small. refl;
}

pub emit_with_operand-Emits :
    (op : Opcode) (n : ℕ) (c : Compiler)
    → CleanPool c.constants
    → Emits (Just (with_operand op n)) c (emit_with_operand op n c)
unfolding emit_with_operand
emit_with_operand-Emits op n c clean = record {
  bytes = with_operand op n;
  code = refl;
  table = refl;
  loops = refl;
  grows = Extends-refl c.constants;
  clean = clean;
  implements = λ pool x small. refl;
}

-- An instruction whose operand is the place of a constant.
pub record Constant (op : Opcode) (v : Value) (pool : List Value) (bs : List ℕ) : Type 0 where
  pub place : ℕ
  pub holds : Holds pool place v
  pub bytes_eq : bs ≡ with_operand op place

pub place-Holds :
    (xs pool : List Value) (i : ℕ) (v : Value)
    → get_elem? xs i ≡ some v
    → Extends xs pool
    → length pool ≤ 2 ^ 32
    → Holds pool (to_u32 i) v
place-Holds xs pool i v found x small =
    let there : get_elem? pool i ≡ some v = get_elem?-Extends xs pool i x found in
    let e : i ≡ to_u32 i = omega (arith, lt-length_of_some pool i there) in
    record { small = omega arith; found = rw (← e) there }

module _ (host : Host) (law : FloatEqLaw host) where
  pub compile_constant-Emits :
      (v : Value) (c : Compiler)
      → CleanPool c.constants
      → IsClean v
      → Emits (Constant op_push v) c (compile_constant host v c)
  unfolding compile_constant emit_with_operand
  compile_constant-Emits v c clean ok_v =
      let added = add_constant-Added host law v c clean ok_v in
      let i = (add_constant host v c).0 in
      let c' = (add_constant host v c).1 in
      record {
        bytes = with_operand op_push (to_u32 i);
        code = ap (λ (l : List ℕ). l ++ with_operand op_push (to_u32 i)) added.code;
        table = added.table;
        loops = added.loops;
        grows = added.grows;
        clean = added.clean;
        implements = λ pool x small. record {
          place = to_u32 i;
          holds = place-Holds c'.constants pool i v added.found x small;
          bytes_eq = refl;
        };
      }

variable_emitted :
    (name : Str) (c : Compiler) (s : Symbol)
    → resolve name c.symbol_table ≡ some s
    → IsReady c
    → Emits (Constant op_load_var (str name)) c (emit_with_operand op_load_var (to_u32 s.index) c)
unfolding emit_with_operand
variable_emitted name c s p ready = record {
  bytes = with_operand op_load_var (to_u32 s.index);
  code = refl;
  table = refl;
  loops = refl;
  grows = Extends-refl c.constants;
  clean = ready.clean;
  implements = λ pool x small. record {
    place = to_u32 s.index;
    holds = place-Holds c.constants pool s.index (str name) (ready.names name s p) x small;
    bytes_eq = refl;
  };
}

pub compile_variable-Emits :
    (name : Str) (c c' : Compiler)
    → compile_variable name c ≡ ok c'
    → IsReady c
    → Emits (Constant op_load_var (str name)) c c'
unfolding compile_variable
compile_variable-Emits name c c' e ready = go (resolve name c.symbol_table) refl e
  where
    go :
        (o : Option Symbol)
        → resolve name c.symbol_table ≡ o
        → (or_fail o CompileError.undefined_variable >>= λ s.
            ok (emit_with_operand op_load_var (to_u32 s.index) c))
          ≡ ok c'
        → Emits (Constant op_load_var (str name)) c c'
    go none p q = cc
    go (some s) p q =
        let same : emit_with_operand op_load_var (to_u32 s.index) c ≡ c' = cc in
        subst (λ d. Emits (Constant op_load_var (str name)) c d) same
          (variable_emitted name c s p ready)
