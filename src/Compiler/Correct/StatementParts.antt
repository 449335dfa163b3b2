-- ===== src/Compiler/Correct/StatementParts.antt =====
-- Each kind of statement: its code does what the statement means if the code of its parts does.
use glyphlang.Prelude.{
  ℕ, zero, suc, ◌+◌, ◌≤◌, ◌<◌, ◌^◌, ◌≡◌, refl, subst, Bool, false, List, ◌∷◌, ◌++◌, some, ok, err,
  ◌>>=◌, arith, length, length-append, if◌then◌else◌,
}
use glyphlang.Prelude.Maps.{Str}
use glyphlang.Vm.Value.{Value, str, Host, Heap, Fallible}
use glyphlang.Vm.Machine.{Vm, max_stack_size}
use glyphlang.Vm.Control.{expect_bool}
use glyphlang.Vm.Opcode.{op_jump_if_false, op_store_var}
use glyphlang.Vm.Runs.{Runs, Runs-then, finished, Stands, Stands-append}
use glyphlang.Eval.{depth}
use glyphlang.Exec.{Env, normal, Execution, after_body, from, loop, value_of, test_of, assigned}
use glyphlang.Ast.{Expr}
use glyphlang.Compiler.Correct.Code.{Holds, Code, with_operand}
use glyphlang.Compiler.Correct.Parts.{length-with_operand}
use glyphlang.Compiler.Correct.Execution.{Code-Computes}
use glyphlang.Compiler.Correct.Jumps.{place, Runs-store, Runs-branch}
use glyphlang.Compiler.Correct.Arrivals.{
  Exits, Arrives, after_run, branch-Arrives, from-Arrives, after_body-Arrives,
}

abbrev pub exits : ℕ → ℕ → ℕ → Exits
exits fin brk cont = record { behind = fin; on_break = brk; on_continue = cont }

module _ (host : Host) (vm : Vm) (live : vm.halted ≡ false) (s : List Value) where
  -- The code of an expression in a statement.
  run_value :
      (e : Expr) (xs : List ℕ) (pc : ℕ) (env : Env)
      → Code vm.constants e xs
      → Stands vm.code pc xs
      → length s + depth e ≤ max_stack_size
      → Runs host (place vm env pc s) (
          value_of host vm.globals e env >>= λ r.
          ok (place vm (record env { heap = r.1 }) (pc + length xs) (r.0 ∷ s)))
  unfolding value_of
  run_value e xs pc env code here room =
      Code-Computes host (record vm { locals = env.locals }) live e xs code pc s env.heap here room

  -- The code of a condition and its branch.
  pub run_test :
      (e : Expr) (xs : List ℕ) (pc target : ℕ) (env : Env)
      → Code vm.constants e xs
      → Stands vm.code pc xs
      → Stands vm.code (pc + length xs) (with_operand op_jump_if_false target)
      → target < 2 ^ 32
      → length s + depth e ≤ max_stack_size
      → Runs host (place vm env pc s) (
          test_of host vm.globals e env >>= λ r.
          ok (place vm (record env { heap = r.1 }) (if r.0 then pc + length xs + 5 else target) s))
  unfolding test_of
  run_test e xs pc target env code here branch small room =
      subst (Runs host (place vm env pc s)) (same (value_of host vm.globals e env)) (
        Runs-then host (value_of host vm.globals e env) (run_value e xs pc env code here room)
          λ r _.
            Runs-branch host vm live (record env { heap = r.1 }) target (pc + length xs) r.0 s small
              branch)
    where
      goal : Env → Bool × Heap → Vm
      goal env r =
          place vm (record env { heap = r.1 }) (if r.0 then pc + length xs + 5 else target) s

      inner :
          (h : Heap) (b : Fallible Bool)
          → (b >>= λ b. ok (goal env (b, h))) ≡ ((b >>= λ b. ok (b, h)) >>= λ r. ok (goal env r))
      inner h (ok b) = refl
      inner h (err x) = refl

      same :
          (m : Fallible (Value × Heap))
          → (m >>= λ r. expect_bool r.0 >>= λ b. ok (goal env (b, r.1)))
            ≡ ((m >>= λ r. expect_bool r.0 >>= λ b. ok (b, r.1)) >>= λ r. ok (goal env r))
      same (ok r) = inner r.1 (expect_bool r.0)
      same (err x) = refl

  pub loop-Arrives :
      (test : Env → Fallible (Bool × Heap)) (body : Env → Execution)
      (top body_at back_at end_at brk cont : ℕ)
      → ((env : Env)
          → Runs host (place vm env top s) (
              test env >>= λ r.
              ok (place vm (record env { heap = r.1 }) (if r.0 then body_at else end_at) s)))
      → ((env : Env)
          → Arrives host vm s (exits back_at end_at top) (place vm env body_at s) (body env))
      → ((env : Env) → Runs host (place vm env back_at s) (ok (place vm env top s)))
      → (fuel : ℕ) (env : Env)
      → Arrives host vm s (exits end_at brk cont) (place vm env top s) (loop fuel test body env)
  unfolding loop
  loop-Arrives test body top body_at back_at end_at brk cont tested bodied back zero env = tt
  loop-Arrives test body top body_at back_at end_at brk cont tested bodied back (suc fuel) env =
      from-Arrives host vm s (exits end_at brk cont) _ (test env) _ _ (tested env) λ r.
        let env₁ : Env = record env { heap = r.1 } in
        let again =
          loop-Arrives test body top body_at back_at end_at brk cont tested bodied back fuel in
        branch-Arrives host vm s (exits end_at brk cont) body_at end_at
          (after_body (body env₁) (loop fuel test body)) (some (ok (normal env₁))) env₁
          (after_body-Arrives host vm s (exits end_at brk cont) (exits back_at end_at top) _
            (body env₁) _ refl (bodied env₁)
            (λ env₂. after_run host vm s (exits end_at brk cont) _ _ _ (back env₂) (again env₂))
            again)
          (finished (place vm env₁ end_at s)) r.0

  pub Stands-operand :
      (op : _) (n p : ℕ) (ys : List ℕ)
      → Stands vm.code p (with_operand op n ++ ys)
      → Stands vm.code p (with_operand op n) × Stands vm.code (p + 5) ys
  Stands-operand op n p ys h =
      let (here, rest) = Stands-append vm.code p (with_operand op n) ys h in
      let e : p + length (with_operand op n) ≡ p + 5 = omega (arith, length-with_operand op n) in
      (here, subst (λ q. Stands vm.code q ys) e rest)

  -- The machine is `k` bytes on, where the exit is.
  pub shifted :
      {p q : ℕ} (brk cont : ℕ) (v : Vm) (m : Execution)
      → p ≡ q
      → Arrives host vm s (exits p brk cont) v m
      → Arrives host vm s (exits q brk cont) v m
  shifted brk cont v m e a = subst (λ p. Arrives host vm s (exits p brk cont) v m) e a

  -- A statement that evaluates an expression and ends with one instruction.
  pub value_then :
      (e : Expr) (xs ys : List ℕ) (brk cont pc : ℕ) (env : Env) (k : Value × Heap → Execution)
      → Code vm.constants e xs
      → Stands vm.code pc (xs ++ ys)
      → length s + depth e ≤ max_stack_size
      → (Stands vm.code (pc + length xs) ys
          → (r : Value × Heap)
          → Arrives host vm s
              (exits (pc + length xs + length ys) brk cont)
              (place vm (record env { heap = r.1 }) (pc + length xs) (r.0 ∷ s))
              (k r))
      → Arrives host vm s
          (exits (pc + length (xs ++ ys)) brk cont)
          (place vm env pc s)
          (from (value_of host vm.globals e env) k)
  value_then e xs ys brk cont pc env k code stands room last =
      let (here, rest) = Stands-append vm.code pc xs ys stands in
      shifted brk cont _ (from (value_of host vm.globals e env) k)
        (omega (arith, length-append {0} xs ys))
        (from-Arrives host vm s (exits (pc + length xs + length ys) brk cont) _
          (value_of host vm.globals e env) _ k (run_value e xs pc env code here room) (last rest))

  pub store_then :
      (e : Expr) (xs : List ℕ) (i brk cont pc : ℕ) (env : Env) (name : Str)
      → Code vm.constants e xs
      → Holds vm.constants i (str name)
      → Stands vm.code pc (xs ++ with_operand op_store_var i)
      → length s + depth e ≤ max_stack_size
      → Arrives host vm s
          (exits (pc + length (xs ++ with_operand op_store_var i)) brk cont)
          (place vm env pc s)
          (from (value_of host vm.globals e env) λ r. some (ok (normal (assigned name env r))))
  store_then e xs i brk cont pc env name code holds stands room =
      value_then e xs (with_operand op_store_var i) brk cont pc env _ code stands room λ here r.
        let five : pc + length xs + 5 ≡ pc + length xs + length (with_operand op_store_var i) =
          omega (arith, length-with_operand op_store_var i) in
        shifted brk cont _ (some (ok (normal (assigned name env r)))) five (
          Runs-store host vm live (record env { heap = r.1 }) i (pc + length xs) name r.0 s holds
            here)
