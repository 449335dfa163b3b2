-- ===== src/Compiler/Correct/Steps.antt =====
-- The steps of the machine at the opcodes that end the code of an expression.
use glyphlang.Prelude.{
  ℕ, ◌+◌, ◌<◌, ◌≡◌, refl, ◌∙◌, ap, subst, false, List, ◌∷◌, some, ok, err, ◌>>=◌, length,
}
use glyphlang.Eval.{binary_meaning, unary_meaning}
use glyphlang.Vm.Value.{Value, Host, Heap, Fallible}
use glyphlang.Vm.Opcode.{executable_opcode, op_get_field, op_get_index, op_await, op_try}
use glyphlang.Vm.Machine.{Vm, max_stack_size, pop, push}
use glyphlang.Vm.Arith.{
  exec_binary, exec_unary, exec_add, exec_sub, exec_mul, exec_div, exec_mod, exec_neg,
}
use glyphlang.Vm.Compare.{
  exec_and, exec_or, exec_not, exec_eq, exec_ne, exec_lt, exec_gt, exec_ge, exec_le,
}
use glyphlang.Vm.Collection.{exec_get_index, exec_get_field, index_value, field_value}
use glyphlang.Vm.Control.{exec_await, exec_try, await_value, try_value}
use glyphlang.Vm.Step.{execute}
use glyphlang.Vm.Runs.{Runs, Stands, state}
use glyphlang.Vm.Runs.Instructions.{push_room, exec_binary-state, exec_unary-state, Runs-opcode}
use glyphlang.Ast.{BinOp, add, UnOp, not_op, neg_op}
use glyphlang.Compiler.Expression.{binary_opcode, unary_opcode}
use glyphlang.Compiler.Correct.Code.{plain}

-- The machine with a computed value on its stack.
abbrev pub lands : Vm → ℕ → List Value → Value × Heap → Vm
lands vm pc s r = state vm pc (r.0 ∷ s) r.1

module _ (host : Host) where
  execute-binary_opcode :
      (op : BinOp) (vm : Vm)
      → execute host (binary_opcode op) vm ≡ exec_binary (binary_meaning host op) vm
  unfolding execute binary_opcode binary_meaning exec_add exec_sub exec_mul exec_div exec_mod
      exec_eq exec_ne exec_lt exec_le exec_gt exec_ge exec_and exec_or
  execute-binary_opcode add vm = refl
  execute-binary_opcode _ vm = refl

  execute-unary_opcode :
      (op : UnOp) (vm : Vm)
      → execute host (unary_opcode op) vm ≡ exec_unary (unary_meaning host op) vm
  unfolding execute unary_opcode unary_meaning exec_not exec_neg
  execute-unary_opcode not_op vm = refl
  execute-unary_opcode neg_op vm = refl

binary_opcode-known : (op : BinOp) → executable_opcode (binary_opcode op) ≡ some (binary_opcode op)
unfolding binary_opcode
binary_opcode-known add = refl
binary_opcode-known _ = refl

unary_opcode-known : (op : UnOp) → executable_opcode (unary_opcode op) ≡ some (unary_opcode op)
unfolding unary_opcode
unary_opcode-known not_op = refl
unary_opcode-known neg_op = refl

module _ (host : Host) (vm : Vm) (live : vm.halted ≡ false) where
  pub at_pc :
      {A : Type 0} {v : Vm} (m : Fallible A) (f : A → List Value × Heap) {p q : ℕ}
      → p ≡ q
      → Runs host v (m >>= λ a. ok (state vm p (f a).0 (f a).1))
      → Runs host v (m >>= λ a. ok (state vm q (f a).0 (f a).1))
  at_pc {v = v} m f e run =
      subst (λ p. Runs host v (m >>= λ a. ok (state vm p (f a).0 (f a).1))) e run

  pub run_binary :
      (op : BinOp) (a b : Value) (pc : ℕ) (s : List Value) (h : Heap)
      → Stands vm.code pc (plain (binary_opcode op))
      → length s < max_stack_size
      → Runs host
          (state vm pc (b ∷ a ∷ s) h)
          (binary_meaning host op a b h >>= λ r. ok (lands vm (pc + 1) s r))
  run_binary op a b pc s h (here, _) room =
      Runs-opcode host vm live (binary_opcode op) pc (b ∷ a ∷ s) h (binary_opcode-known op) here (
        execute-binary_opcode host op _
        ∙ exec_binary-state vm (binary_meaning host op) a b (pc + 1) s h room)

  pub run_unary :
      (op : UnOp) (a : Value) (pc : ℕ) (s : List Value) (h : Heap)
      → Stands vm.code pc (plain (unary_opcode op))
      → length s < max_stack_size
      → Runs host
          (state vm pc (a ∷ s) h)
          (unary_meaning host op a >>= λ v. ok (state vm (pc + 1) (v ∷ s) h))
  run_unary op a pc s h (here, _) room =
      Runs-opcode host vm live (unary_opcode op) pc (a ∷ s) h (unary_opcode-known op) here (
        execute-unary_opcode host op _
        ∙ exec_unary-state vm (unary_meaning host op) a (pc + 1) s h room)

  -- The last push of an instruction that has computed `r`.
  push_result :
      (r : Fallible Value) (pc : ℕ) (s : List Value) (h : Heap)
      → length s < max_stack_size
      → (r >>= λ v. ok (push v (state vm pc s h))) ≡ (r >>= λ v. ok (state vm pc (v ∷ s) h))
  push_result (ok v) pc s h room = ap ok (push_room v (state vm pc s h) room)
  push_result (err e) pc s h room = refl

  pub run_get_index :
      (a i : Value) (pc : ℕ) (s : List Value) (h : Heap)
      → Stands vm.code pc (plain op_get_index)
      → length s < max_stack_size
      → Runs host
          (state vm pc (i ∷ a ∷ s) h)
          (index_value a i h >>= λ v. ok (state vm (pc + 1) (v ∷ s) h))
  unfolding execute exec_get_index pop
  run_get_index a i pc s h (here, _) room =
      Runs-opcode host vm live op_get_index pc (i ∷ a ∷ s) h refl here
        (push_result (index_value a i h) (pc + 1) s h room)

  pub run_get_field :
      (o k : Value) (pc : ℕ) (s : List Value) (h : Heap)
      → Stands vm.code pc (plain op_get_field)
      → length s < max_stack_size
      → Runs host
          (state vm pc (k ∷ o ∷ s) h)
          (field_value o k h >>= λ v. ok (state vm (pc + 1) (v ∷ s) h))
  unfolding execute exec_get_field pop
  run_get_field o k pc s h (here, _) room =
      Runs-opcode host vm live op_get_field pc (k ∷ o ∷ s) h refl here
        (push_result (field_value o k h) (pc + 1) s h room)

  pub run_await :
      (a : Value) (pc : ℕ) (s : List Value) (h : Heap)
      → Stands vm.code pc (plain op_await)
      → length s < max_stack_size
      → Runs host
          (state vm pc (a ∷ s) h)
          (await_value host a >>= λ v. ok (state vm (pc + 1) (v ∷ s) h))
  unfolding execute exec_await pop
  run_await a pc s h (here, _) room =
      Runs-opcode host vm live op_await pc (a ∷ s) h refl here
        (push_result (await_value host a) (pc + 1) s h room)

  pub run_try :
      (a : Value) (pc : ℕ) (s : List Value) (h : Heap)
      → Stands vm.code pc (plain op_try)
      → length s < max_stack_size
      → Runs host (state vm pc (a ∷ s) h) (try_value a >>= λ v. ok (state vm (pc + 1) (v ∷ s) h))
  unfolding execute exec_try pop
  run_try a pc s h (here, _) room =
      Runs-opcode host vm live op_try pc (a ∷ s) h refl here
        (push_result (try_value a) (pc + 1) s h room)
