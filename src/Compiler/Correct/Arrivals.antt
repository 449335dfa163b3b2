-- ===== src/Compiler/Correct/Arrivals.antt =====
-- Where the machine arrives from a place in the code, for an execution by the reference.
use glyphlang.Prelude.{
  refl, ℕ, ◌≡◌, Bool, true, false, List, ◌∷◌, some, none, ok, err, ◌>>=◌, if◌then◌else◌, subst,
}
use glyphlang.Vm.Value.{Value, Host, Fallible}
use glyphlang.Vm.Machine.{Vm}
use glyphlang.Vm.Control.{return_to}
use glyphlang.Vm.Runs.{Runs, Runs-append}
use glyphlang.Exec.{
  Env, Outcome, normal, returned, broken, continued, Execution, and_then, after_body, from,
}
use glyphlang.Compiler.Correct.Jumps.{place}

-- The ends of a piece of code: behind it, and the targets of break and continue.
pub record Exits : Type 0 where
  pub behind : ℕ
  pub on_break : ℕ
  pub on_continue : ℕ

module _ (host : Host) (vm : Vm) (s : List Value) where
  -- The machine has the environment of the outcome at the exit for it, with the stack as it was; or
  -- it has returned, with the value on the stack.
  abbrev Lands : Exits → Vm → Outcome → Type 0
  Lands x v (normal env) = Runs host v (ok (place vm env x.behind s))
  Lands x v (broken env) = Runs host v (ok (place vm env x.on_break s))
  Lands x v (continued env) = Runs host v (ok (place vm env x.on_continue s))
  Lands x v (returned r env) =
      (pc : ℕ) × Runs host v (ok (return_to vm.call_stack (place vm env pc (r ∷ s))))

  -- An execution that ran out of fuel says nothing; an error is the machine's error.
  abbrev pub Arrives : Exits → Vm → Execution → Type 0
  Arrives x v none = Unit {0}
  Arrives x v (some (err e)) = Runs host v (err e)
  Arrives x v (some (ok o)) = Lands x v o

  -- A run before an execution.
  pub after_run :
      (x : Exits) (v w : Vm) (m : Execution) → Runs host v (ok w) → Arrives x w m → Arrives x v m
  after_run x v w none run rest = tt
  after_run x v w (some (err e)) run rest = Runs-append host run refl rest
  after_run x v w (some (ok (normal env))) run rest = Runs-append host run refl rest
  after_run x v w (some (ok (broken env))) run rest = Runs-append host run refl rest
  after_run x v w (some (ok (continued env))) run rest = Runs-append host run refl rest
  after_run x v w (some (ok (returned r env))) run (pc, rest) = (pc, Runs-append host run refl rest)

  -- A part that computes something, and what follows it.
  pub from-Arrives :
      {A : Type 0} (x : Exits) (v : Vm) (m : Fallible A) (g : A → Vm) (k : A → Execution)
      → Runs host v (m >>= λ a. ok (g a))
      → ((a : A) → Arrives x (g a) (k a))
      → Arrives x v (from m k)
  unfolding from
  from-Arrives x v (ok a) g k run rest = after_run x v (g a) (k a) run (rest a)
  from-Arrives x v (err e) g k run rest = run

  pub and_then-Arrives :
      (x : Exits) (mid : ℕ) (v : Vm) (m : Execution) (k : Env → Execution)
      → Arrives (record x { behind = mid }) v m
      → ((env : Env) → Arrives x (place vm env mid s) (k env))
      → Arrives x v (and_then m k)
  unfolding and_then
  and_then-Arrives x mid v none k run rest = tt
  and_then-Arrives x mid v (some (err e)) k run rest = run
  and_then-Arrives x mid v (some (ok (normal env))) k run rest =
      after_run x v (place vm env mid s) (k env) run (rest env)
  and_then-Arrives x mid v (some (ok (broken env))) k run rest = run
  and_then-Arrives x mid v (some (ok (continued env))) k run rest = run
  and_then-Arrives x mid v (some (ok (returned r env))) k run rest = run

  -- Code that runs on from behind an execution.
  pub and_run :
      (x : Exits) (fin : ℕ) (v : Vm) (m : Execution)
      → ((env : Env) → Runs host (place vm env x.behind s) (ok (place vm env fin s)))
      → Arrives x v m
      → Arrives (record x { behind = fin }) v m
  and_run x fin v none on run = tt
  and_run x fin v (some (err e)) on run = run
  and_run x fin v (some (ok (normal env))) on run = Runs-append host run refl (on env)
  and_run x fin v (some (ok (broken env))) on run = run
  and_run x fin v (some (ok (continued env))) on run = run
  and_run x fin v (some (ok (returned r env))) on run = run

  -- The two sides of a branch.
  pub branch-Arrives :
      (x : Exits) (there here : ℕ) (taken other : Execution) (env : Env)
      → Arrives x (place vm env there s) taken
      → Arrives x (place vm env here s) other
      → (b : Bool)
      → Arrives x
          (place vm env (if b then there else here) s)
          (elim b [ true ↦ taken | false ↦ other ])
  branch-Arrives x there here taken other env a b true = a
  branch-Arrives x there here taken other env a b false = b

  -- The body of a loop goes to `end`, by a break, or back to `top`.
  pub after_body-Arrives :
      (x y : Exits) (v : Vm) (m : Execution) (k : Env → Execution)
      → y.on_break ≡ x.behind
      → Arrives y v m
      → ((env : Env) → Arrives x (place vm env y.behind s) (k env))
      → ((env : Env) → Arrives x (place vm env y.on_continue s) (k env))
      → Arrives x v (after_body m k)
  unfolding after_body
  after_body-Arrives x y v none k e run down up = tt
  after_body-Arrives x y v (some (err f)) k e run down up = run
  after_body-Arrives x y v (some (ok (normal env))) k e run down up =
      after_run x v (place vm env y.behind s) (k env) run (down env)
  after_body-Arrives x y v (some (ok (broken env))) k e run down up =
      subst (λ p. Runs host v (ok (place vm env p s))) e run
  after_body-Arrives x y v (some (ok (continued env))) k e run down up =
      after_run x v (place vm env y.on_continue s) (k env) run (up env)
  after_body-Arrives x y v (some (ok (returned r env))) k e run down up = run
