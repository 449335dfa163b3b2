-- ===== src/Vm/Runs/Whole.antt =====
-- Whole runs: what they never change, and that a step limit ends them.
use glyphlang.Prelude.{ℕ, ◌+◌, ◌≤◌, ◌<◌, ◌≡◌, refl, ◌∙◌, subst, List, some, ok, err, length}
use glyphlang.Prelude.Post.{Post, any_result, returns, Post-bind, Post-ok}
use glyphlang.Prelude.{arith, guard, take}
use glyphlang.Prelude.Maps.{str_eq}
use glyphlang.Vm.Value.{Value, Host, Fallible, Error, bad_bytecode}
use glyphlang.Vm.Machine.{Vm, max_stack_size}
use glyphlang.Vm.Loader.{load, need, magic, parse_bytecode}
use glyphlang.Vm.Step.{run_loop, execute_bytecode}
use glyphlang.Vm.Frame.Run.{step-Frame, run_loop-terminates}
use glyphlang.Vm.Runs.{Runs, finished, fails, next}

-- What every state of a run has in common with the first one, and the bound on the stack.
pub record Preserved (v w : Vm) : Type 0 where
  pub max_steps : w.max_steps ≡ v.max_steps
  pub globals : w.globals ≡ v.globals
  pub builtins : w.builtins ≡ v.builtins
  pub bounded : length w.stack ≤ max_stack_size

module _ (host : Host) where
  preserved :
      {v w : Vm} {r : Fallible Vm}
      → Runs host v r
      → r ≡ ok w
      → length v.stack ≤ max_stack_size
      → Preserved v w
  preserved {v} {w} (finished u) e fits =
      let same : v ≡ w = cc in
      subst (λ x. Preserved v x) same
        (record { max_steps = refl; globals = refl; builtins = refl; bounded = fits })
  preserved (fails go s) e fits = cc
  preserved {v} (next go s run) e fits =
      let (m, g, b, bound) = step-Frame host v s in
      let later = preserved run e (bound fits) in
      record {
        max_steps = later.max_steps ∙ m;
        globals = later.globals ∙ g;
        builtins = later.builtins ∙ b;
        bounded = later.bounded;
      }

  -- A run of the machine over any bytes, from a stack of at most 10000 values, that has reached a
  -- state, has not changed the step limit, the globals or the builtins, and has left at most 10000
  -- values on the stack.
  pub Runs-Preserved :
      (v w : Vm) → length v.stack ≤ max_stack_size → Runs host v (ok w) → Preserved v w
  Runs-Preserved v w fits run = preserved run refl fits

  ends_if_loaded :
      (fuel : ℕ) (bytecode : List ℕ) (v : Vm) (m : Fallible Vm)
      → load bytecode v ≡ m
      → ((w : Vm) → m ≡ ok w → (r : Fallible (Value × Vm)) × (run_loop host fuel 0 w ≡ some r))
      → (r : Fallible (Value × Vm)) × (execute_bytecode host fuel bytecode v ≡ some r)
  unfolding execute_bytecode
  ends_if_loaded fuel bytecode v (err e) p k = (err e, rw (p, execute_bytecode) refl)
  ends_if_loaded fuel bytecode v (ok w) p k =
      let (r, q) = k w refl in (r, rw (p, execute_bytecode) q)

load-max_steps :
    (bytecode : List ℕ) (v : Vm) → Post (λ w. w.max_steps ≡ v.max_steps) (load bytecode v)
unfolding load
load-max_steps bytecode v = Post-bind (any_result (need 4 0 bytecode)) λ _ _.
    Post-bind (any_result (guard (str_eq (take 4 bytecode) magic) bad_bytecode))
      λ _ _. Post-bind (any_result (parse_bytecode bytecode 4)) λ _ _. returns refl

-- With a step limit N that is not 0, Execute ends on every input, well-formed or not: N + 1 rounds
-- of fuel give a result, which is a value or an error.
pub execute_bytecode-terminates :
    (host : Host) (bytecode : List ℕ) (v : Vm)
    → 0 < v.max_steps
    → (r : Fallible (Value × Vm)) × (execute_bytecode host (v.max_steps + 1) bytecode v ≡ some r)
execute_bytecode-terminates host bytecode v pos =
    ends_if_loaded host (v.max_steps + 1) bytecode v (load bytecode v) refl λ w e.
      let m : w.max_steps ≡ v.max_steps =
        Post-ok {E = Error} (rw e at (load-max_steps bytecode v)) in
      subst (λ n. (r : Fallible (Value × Vm)) × (run_loop host (n + 1) 0 w ≡ some r)) m
        (run_loop-terminates host w (omega arith))
