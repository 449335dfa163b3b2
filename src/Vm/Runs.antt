-- ===== src/Vm/Runs.antt =====
-- Runs of the machine as a relation: from a state, the rounds of runLoop lead to a later state or
-- to an error. And what a round does at an opcode that stands in the code.
pub mod Instructions
pub mod Building
pub mod Loop
pub mod Whole
use glyphlang.Prelude.{
  ℕ, zero, suc, ◌+◌, ◌*◌, ◌≤◌, ◌<◌, ◌^◌, ◌≡◌, refl, sym, ◌∙◌, ap, subst, Bool, true, false, not,
  ◌&&◌, List, [], ◌∷◌, ◌++◌, Option, some, none, ok, err, ◌>>=◌, ltb, leb, arith, length, get_elem?,
  get_or, drop, lt-length_of_some, lt→ltb, le→leb, if◌then◌else◌, length-append,
}
use glyphlang.Bytes.{u32, put_u32, u32-put_u32}
use glyphlang.Vm.Value.{Value, Host, Heap, Error, Fallible, unknown_opcode}
use glyphlang.Vm.Opcode.{Opcode, opcode_byte, opcode_of, executable_opcode, opcode_of-opcode_byte}
use glyphlang.Vm.Machine.{Vm, push, read_operand, max_stack_size}
use glyphlang.Vm.Step.{execute, execute_case, execute_instruction, step, running}

-- `bytes` stand in the code from `pc` on.
abbrev pub Stands : List ℕ → ℕ → List ℕ → Type 0
Stands code pc [] = Unit {0}
Stands code pc (b ∷ bs) = (get_elem? code pc ≡ some b) × Stands code (pc + 1) bs

pub Stands-append :
    (code : List ℕ) (pc : ℕ) (xs ys : List ℕ)
    → Stands code pc (xs ++ ys)
    → Stands code pc xs × Stands code (pc + length xs) ys
Stands-append code pc [] ys h =
    (tt, let e : pc ≡ pc + 0 = omega arith in subst (λ p. Stands code p ys) e h)
Stands-append code pc (x ∷ xs) ys (here, rest) =
    let (a, b) = Stands-append code (pc + 1) xs ys rest in
    let e : pc + 1 + length xs ≡ pc + suc (length xs) = omega arith in
    ((here, a), subst (λ p. Stands code p ys) e b)

get_or_of_some : (xs : List ℕ) (i : ℕ) {b : ℕ} → get_elem? xs i ≡ some b → get_or xs i 0 ≡ b
get_or_of_some [] i h = cc
get_or_of_some (x ∷ xs) zero h = cc
get_or_of_some (x ∷ xs) (suc i) h = get_or_of_some xs i h

drop_of_some :
    (xs : List ℕ) (i : ℕ) {b : ℕ} → get_elem? xs i ≡ some b → drop i xs ≡ b ∷ drop (i + 1) xs
drop_of_some [] i h = cc
drop_of_some (x ∷ xs) zero h = cc
drop_of_some (x ∷ xs) (suc i) {b} h =
    let e : suc (i + 1) ≡ suc i + 1 = omega arith in
    drop_of_some xs i h ∙ ap (λ (k : ℕ). b ∷ drop k (x ∷ xs)) e

module _ (host : Host) where
  pub data Runs : Vm → Fallible Vm → Type 0 where
    finished : (v : Vm) → Runs v (ok v)
    fails : {v : Vm} {e : Error} → running host v ≡ true → step host v ≡ err e → Runs v (err e)
    next :
        {v w : Vm} {r : Fallible Vm}
        → running host v ≡ true
        → step host v ≡ ok w
        → Runs w r
        → Runs v r

  pub Runs-bind :
      {v : Vm} {r : Fallible Vm} {f : Vm → Fallible Vm}
      → Runs v r
      → ((w : Vm) → Runs w (f w))
      → Runs v (r >>= f)
  Runs-bind (finished v) k = k v
  Runs-bind (fails go e) k = fails go e
  Runs-bind (next go e rest) k = next go e (Runs-bind rest k)

-- The machine at a place in the code, with a stack and a heap, and all else as in `vm`.
abbrev pub state : Vm → ℕ → List Value → Heap → Vm
state vm pc s h = record vm { pc = pc; stack = s; heap = h }

drop-Stands :
    (code : List ℕ) (pc : ℕ) (bs : List ℕ)
    → Stands code pc bs
    → drop pc code ≡ bs ++ drop (pc + length bs) code
drop-Stands code pc [] h = ap (λ (k : ℕ). drop k code) (omega arith)
drop-Stands code pc (b ∷ bs) (here, rest) =
    drop_of_some code pc here
    ∙ ap (◌∷◌ b)
        (drop-Stands code (pc + 1) bs rest ∙ ap (λ (k : ℕ). bs ++ drop k code) (omega arith))

operand_value :
    (n : ℕ) (code : List ℕ) (pc : ℕ)
    → n < 2 ^ 32
    → Stands code pc (put_u32 n)
    → u32 (drop pc code) ≡ n
operand_value n code pc small here =
    ap u32 (drop-Stands code pc (put_u32 n) here) ∙ u32-put_u32 n _ small

operand_fits : (n : ℕ) (code : List ℕ) (pc : ℕ) → Stands code pc (put_u32 n) → pc + 4 ≤ length code
unfolding put_u32
operand_fits n code pc (_, (_, (_, (last, _)))) =
    omega (arith, lt-length_of_some code (pc + 1 + 1 + 1) last)

module _ (host : Host) (vm : Vm) where
  pub running_at :
      (pc : ℕ) {b : ℕ} (s : List Value) (h : Heap)
      → vm.halted ≡ false
      → get_elem? vm.code pc ≡ some b
      → running host (state vm pc s h) ≡ true
  unfolding running
  running_at pc s h live here =
      rw (live, lt→ltb pc (length vm.code) (lt-length_of_some vm.code pc here)) refl

  -- At an opcode that the machine has, a step is the instruction behind it.
  pub step_at :
      (op : Opcode) (pc : ℕ) (s : List Value) (h : Heap)
      → executable_opcode op ≡ some op
      → get_elem? vm.code pc ≡ some (opcode_byte op)
      → step host (state vm pc s h) ≡ execute host op (state vm (pc + 1) s h)
  unfolding step execute_instruction execute_case
  step_at op pc s h known here =
      rw
        (
          lt→ltb pc (length vm.code) (lt-length_of_some vm.code pc here),
          get_or_of_some vm.code pc here,
          opcode_of-opcode_byte op,
          known,
        )
        refl

  pub operand_at :
      (n pc : ℕ) (s : List Value) (h : Heap)
      → n < 2 ^ 32
      → Stands vm.code pc (put_u32 n)
      → read_operand (state vm pc s h) ≡ ok (n, state vm (pc + 4) s h)
  unfolding read_operand
  operand_at n pc s h small here =
      rw
        (
          le→leb (pc + 4) (length vm.code) (operand_fits n vm.code pc here),
          operand_value n vm.code pc small here,
        )
        refl

module _ (host : Host) where
  -- One run after another.
  pub Runs-append :
      {v w : Vm} {r r' : Fallible Vm} → Runs host v r' → r' ≡ ok w → Runs host w r → Runs host v r
  Runs-append {r = r} (finished v) e rest =
      let e' : _ ≡ v = cc in subst (λ u. Runs host u r) e' rest
  Runs-append (fails go s) e rest = cc
  Runs-append (next go s run) e rest = next go s (Runs-append run e rest)

  -- A run that computes a value is followed by one that uses it.
  pub Runs-then :
      {A : Type 0} {v : Vm} (m : Fallible A) {g : A → Vm} {k : A → Fallible Vm}
      → Runs host v (m >>= λ a. ok (g a))
      → ((a : A) → m ≡ ok a → Runs host (g a) (k a))
      → Runs host v (m >>= k)
  Runs-then (ok a) run rest = Runs-append run refl (rest a refl)
  Runs-then (err e) run rest = run
