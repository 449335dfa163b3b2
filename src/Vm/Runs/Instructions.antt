-- ===== src/Vm/Runs/Instructions.antt =====
-- What single instructions do on a stack that holds their operands and has room for the result.
use glyphlang.Prelude.{
  ℕ, ◌+◌, ◌<◌, ◌^◌, ◌≡◌, refl, ◌∙◌, ap, true, false, List, ◌∷◌, some, ok, err, ◌>>=◌, leb, arith,
  length, get_elem?,
}
use glyphlang.Prelude.Maps.{Str}
use glyphlang.Bytes.{put_u32}
use glyphlang.Vm.Value.{Value, str, Host, Heap, Fallible}
use glyphlang.Vm.Opcode.{Opcode, opcode_byte, executable_opcode, op_push, op_load_var}
use glyphlang.Vm.Machine.{Vm, push, pop, max_stack_size, constant_at, expect_name}
use glyphlang.Vm.Arith.{exec_binary, exec_unary}
use glyphlang.Vm.Control.{exec_push, exec_load_var, variable_value}
use glyphlang.Vm.Step.{execute, step, running}
use glyphlang.Vm.Runs.{Runs, finished, fails, next, Stands, state, step_at, running_at, operand_at}

pub push_room :
    (v : Value) (vm : Vm)
    → length vm.stack < max_stack_size
    → push v vm ≡ record vm { stack = v ∷ vm.stack }
unfolding push
push_room v vm room = rw (full vm.stack room) refl
  where
    full : (s : List Value) → length s < max_stack_size → leb max_stack_size (length s) ≡ false
    full s h = ground arith

module _ (vm : Vm) where
  pub exec_binary-state :
      (f : Value → Value → Heap → Fallible (Value × Heap)) (a b : Value) (pc : ℕ) (s : List Value)
      (h : Heap)
      → length s < max_stack_size
      → exec_binary f (state vm pc (b ∷ a ∷ s) h)
        ≡ (f a b h >>= λ r. ok (state vm pc (r.0 ∷ s) r.1))
  unfolding exec_binary pop
  exec_binary-state f a b pc s h room = go (f a b h)
    where
      go :
          (r : Fallible (Value × Heap))
          → (r >>= λ x. ok (push x.0 (state vm pc s x.1)))
            ≡ (r >>= λ x. ok (state vm pc (x.0 ∷ s) x.1))
      go (ok (v, h')) = ap ok (push_room v (state vm pc s h') room)
      go (err e) = refl

  pub exec_unary-state :
      (f : Value → Fallible Value) (a : Value) (pc : ℕ) (s : List Value) (h : Heap)
      → length s < max_stack_size
      → exec_unary f (state vm pc (a ∷ s) h) ≡ (f a >>= λ v. ok (state vm pc (v ∷ s) h))
  unfolding exec_unary pop
  exec_unary-state f a pc s h room = go (f a)
    where
      go :
          (r : Fallible Value)
          → (r >>= λ v. ok (push v (state vm pc s h))) ≡ (r >>= λ v. ok (state vm pc (v ∷ s) h))
      go (ok v) = ap ok (push_room v (state vm pc s h) room)
      go (err e) = refl

module _ (host : Host) where
  -- One round.
  pub Runs-one :
      {v : Vm} (r : Fallible Vm) → running host v ≡ true → step host v ≡ r → Runs host v r
  Runs-one (ok w) go e = next go e (finished w)
  Runs-one (err x) go e = fails go e

  module _ (vm : Vm) (live : vm.halted ≡ false) where
    -- One round at an opcode of the machine.
    pub Runs-opcode :
        (op : Opcode) (pc : ℕ) (s : List Value) (h : Heap) {r : Fallible Vm}
        → executable_opcode op ≡ some op
        → get_elem? vm.code pc ≡ some (opcode_byte op)
        → execute host op (state vm (pc + 1) s h) ≡ r
        → Runs host (state vm pc s h) r
    Runs-opcode op pc s h {r} known here e =
        Runs-one r (running_at host vm pc s h live here) (step_at host vm op pc s h known here ∙ e)

    pub Runs-push :
        (i pc : ℕ) (v : Value) (s : List Value) (h : Heap)
        → i < 2 ^ 32
        → get_elem? vm.constants i ≡ some v
        → Stands vm.code pc (opcode_byte op_push ∷ put_u32 i)
        → length s < max_stack_size
        → Runs host (state vm pc s h) (ok (state vm (pc + 5) (v ∷ s) h))
    unfolding execute exec_push constant_at
    Runs-push i pc v s h small found (here, operand) room =
        let e : pc + 1 + 4 ≡ pc + 5 = omega arith in
        Runs-opcode op_push pc s h refl here (
          rw (operand_at host vm i (pc + 1) s h small operand, found, e)
            (ap ok (push_room v (state vm (pc + 5) s h) room)))

    pub Runs-load :
        (i pc : ℕ) (name : Str) (s : List Value) (h : Heap)
        → i < 2 ^ 32
        → get_elem? vm.constants i ≡ some (str name)
        → Stands vm.code pc (opcode_byte op_load_var ∷ put_u32 i)
        → length s < max_stack_size
        → Runs host
            (state vm pc s h)
            (variable_value vm.locals vm.globals name >>= λ v. ok (state vm (pc + 5) (v ∷ s) h))
    unfolding execute exec_load_var constant_at expect_name
    Runs-load i pc name s h small found (here, operand) room =
        let e : pc + 1 + 4 ≡ pc + 5 = omega arith in
        Runs-opcode op_load_var pc s h refl here (
          rw (operand_at host vm i (pc + 1) s h small operand, found, e)
            (go (variable_value vm.locals vm.globals name)))
      where
        go :
            (r : Fallible Value)
            → (r >>= λ v. ok (push v (state vm (pc + 5) s h)))
              ≡ (r >>= λ v. ok (state vm (pc + 5) (v ∷ s) h))
        go (ok v) = ap ok (push_room v (state vm (pc + 5) s h) room)
        go (err x) = refl
