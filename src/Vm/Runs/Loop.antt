-- ===== src/Vm/Runs/Loop.antt =====
-- From the relation to the loop: what a run leads to is what runLoop returns.
use glyphlang.Prelude.{
  ℕ, suc, ◌+◌, ◌≡◌, refl, ◌∙◌, ap, Bool, true, false, Option, some, ok, err, arith,
}
use glyphlang.Vm.Value.{Value, Host, Error, Fallible}
use glyphlang.Vm.Machine.{Vm}
use glyphlang.Vm.Step.{step, running, run_loop, after_round, over_limit}
use glyphlang.Vm.Frame.Run.{step-Frame}
use glyphlang.Vm.Runs.{Runs, finished, fails, next}

module _ (host : Host) where
  -- How the loop goes on with `fuel` more rounds from what a run of `n` rounds led to.
  abbrev pub continues : ℕ → ℕ → Fallible Vm → Option (Fallible (Value × Vm))
  continues fuel steps (ok w) = run_loop host fuel steps w
  continues fuel steps (err e) = some (err e)

  no_limit : (steps : ℕ) → over_limit 0 steps ≡ false
  unfolding over_limit
  no_limit steps = refl

  round :
      (fuel steps : ℕ) (v w : Vm)
      → running host v ≡ true
      → step host v ≡ ok w
      → w.max_steps ≡ 0
      → run_loop host (suc fuel) steps v ≡ run_loop host fuel (steps + 1) w
  unfolding run_loop after_round
  round fuel steps v w go e m =
      rw (go, run_loop)
        (rw (e, after_round)
          (within (over_limit w.max_steps (steps + 1)) (rw m (no_limit (steps + 1)))))
    where
      within :
          (b : Bool)
          → b ≡ false
          → (elim b [
            | true ↦ some (err Error.step_limit)
            | false ↦ run_loop host fuel (steps + 1) w
          ])
            ≡ run_loop host fuel (steps + 1) w
      within false h = refl
      within true h = cc

  stop :
      (fuel steps : ℕ) (v : Vm) {e : Error}
      → running host v ≡ true
      → step host v ≡ err e
      → run_loop host (suc fuel) steps v ≡ some (err e)
  unfolding run_loop after_round
  stop fuel steps v go e = rw (go, run_loop) (rw (e, after_round) refl)

  -- Without a step limit, the rounds of a run are rounds of the loop.
  pub Runs-run_loop :
      {v : Vm} {r : Fallible Vm}
      → Runs host v r
      → v.max_steps ≡ 0
      → (n : ℕ) × ((total fuel steps : ℕ)
          → total ≡ n + suc fuel
          → (k : ℕ) × (run_loop host total steps v ≡ continues (suc fuel) k r))
  Runs-run_loop (finished v) m = (
    0,
    λ total fuel steps t.
        let e : total ≡ suc fuel = omega arith in
        (steps, ap (λ (f : ℕ). run_loop host f steps v) e),
  )
  Runs-run_loop {v} (fails go e) m = (
    0,
    λ total fuel steps t.
        let q : total ≡ suc fuel = omega arith in (steps, rw q (stop fuel steps v go e)),
  )
  Runs-run_loop {v} (next {w = w} go e run) m =
      let m' : w.max_steps ≡ 0 = (step-Frame host v e).0 ∙ m in
      let (n, loop) = Runs-run_loop run m' in
      (
        suc n,
        λ total fuel steps t.
            let q : total ≡ suc (n + suc fuel) = omega arith in
            let (k, h) = loop (n + suc fuel) fuel (steps + 1) refl in
            (k, rw q (round (n + suc fuel) steps v w go e m' ∙ h)),
      )
