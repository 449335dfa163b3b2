-- ===== src/Vm/Frame/Run.antt =====
-- Every instruction keeps the frame; so the step limit ends every run.
use glyphlang.Prelude.{
  ℕ, zero, suc, ◌+◌, ◌≤◌, ◌<◌, ◌≡◌, refl, true, false, Option, some, none, ok, err, ltb, arith, inl,
  inr, Bool-cases, length,
}
use glyphlang.Prelude.Post.{raises, Post-ok}
use glyphlang.Vm.Value.{Value, Host, Error, Fallible}
use glyphlang.Vm.Opcode.{
  Opcode, opcode_of, op_push, op_pop, op_add, op_sub, op_mul, op_div, op_mod, op_eq, op_ne, op_lt,
  op_gt, op_ge, op_le, op_and, op_or, op_not, op_neg, op_load_var, op_store_var, op_jump,
  op_jump_if_false, op_jump_if_true, op_get_iter, op_iter_next, op_iter_has_next, op_get_index,
  op_set_index, op_return, op_call, op_build_object, op_get_field, op_set_field, op_def_func,
  op_build_array, op_http_return, op_ws_get_conn_count, op_ws_get_uptime, op_async, op_await,
  op_try, op_telemetry, op_halt,
}
use glyphlang.Vm.Machine.{Vm}
use glyphlang.Vm.Arith.{exec_add, exec_sub, exec_mul, exec_div, exec_mod, exec_neg}
use glyphlang.Vm.Compare.{
  exec_and, exec_or, exec_not, exec_eq, exec_ne, exec_lt, exec_gt, exec_ge, exec_le,
}
use glyphlang.Vm.Control.{exec_ws_counter, exec_ws_command}
use glyphlang.Vm.Step.{
  execute, execute_case, execute_instruction, step, running, run_result, after_round, over_limit,
  run_loop,
}
use glyphlang.Vm.Frame.Basic.{Frame, Frame-refl, Keeps, push-Keeps, done}
use glyphlang.Vm.Frame.Values.{
  exec_binary-Keeps, exec_unary-Keeps, exec_get_index-Keeps, exec_get_field-Keeps,
  exec_set_field-Keeps, exec_set_index-Keeps, exec_build_array-Keeps, exec_build_object-Keeps,
  exec_get_iter-Keeps, exec_iter_has_next-Keeps, exec_iter_next-Keeps,
}
use glyphlang.Vm.Frame.Flow.{
  exec_push-Keeps, exec_pop-Keeps, exec_load_var-Keeps, exec_store_var-Keeps, exec_jump-Keeps,
  exec_jump_if-Keeps, exec_def_func-Keeps, exec_return-Keeps, exec_call-Keeps,
  exec_http_return-Keeps, exec_telemetry-Keeps, exec_async-Keeps, exec_await-Keeps, exec_try-Keeps,
}

within_limit :
    (m steps limit : ℕ) → m ≡ limit → 0 < limit → over_limit m steps ≡ false → steps ≤ limit
unfolding over_limit
within_limit m steps limit e pos h = ground arith

module _ (host : Host) where
  execute-Keeps : (op : Opcode) (v : Vm) → Keeps v (execute host op v)
  unfolding execute exec_add exec_sub exec_mul exec_div exec_mod exec_neg exec_and exec_or exec_not
      exec_eq exec_ne exec_lt exec_gt exec_ge exec_le exec_ws_counter exec_ws_command
  execute-Keeps op_push v = exec_push-Keeps v
  execute-Keeps op_pop v = exec_pop-Keeps v
  execute-Keeps op_add v = exec_binary-Keeps _ v
  execute-Keeps op_sub v = exec_binary-Keeps _ v
  execute-Keeps op_mul v = exec_binary-Keeps _ v
  execute-Keeps op_div v = exec_binary-Keeps _ v
  execute-Keeps op_mod v = exec_binary-Keeps _ v
  execute-Keeps op_eq v = exec_binary-Keeps _ v
  execute-Keeps op_ne v = exec_binary-Keeps _ v
  execute-Keeps op_lt v = exec_binary-Keeps _ v
  execute-Keeps op_gt v = exec_binary-Keeps _ v
  execute-Keeps op_ge v = exec_binary-Keeps _ v
  execute-Keeps op_le v = exec_binary-Keeps _ v
  execute-Keeps op_and v = exec_binary-Keeps _ v
  execute-Keeps op_or v = exec_binary-Keeps _ v
  execute-Keeps op_not v = exec_unary-Keeps _ v
  execute-Keeps op_neg v = exec_unary-Keeps _ v
  execute-Keeps op_load_var v = exec_load_var-Keeps v
  execute-Keeps op_store_var v = exec_store_var-Keeps v
  execute-Keeps op_jump v = exec_jump-Keeps v
  execute-Keeps op_jump_if_false v = exec_jump_if-Keeps false v
  execute-Keeps op_jump_if_true v = exec_jump_if-Keeps true v
  execute-Keeps op_get_iter v = exec_get_iter-Keeps host v
  execute-Keeps op_iter_next v = exec_iter_next-Keeps v
  execute-Keeps op_iter_has_next v = exec_iter_has_next-Keeps v
  execute-Keeps op_get_index v = exec_get_index-Keeps v
  execute-Keeps op_set_index v = exec_set_index-Keeps v
  execute-Keeps op_return v = exec_return-Keeps v
  execute-Keeps op_call v = exec_call-Keeps v
  execute-Keeps op_build_object v = exec_build_object-Keeps v
  execute-Keeps op_get_field v = exec_get_field-Keeps v
  execute-Keeps op_set_field v = exec_set_field-Keeps v
  execute-Keeps op_def_func v = exec_def_func-Keeps v
  execute-Keeps op_build_array v = exec_build_array-Keeps v
  execute-Keeps op_http_return v = exec_http_return-Keeps v
  execute-Keeps op_ws_get_conn_count v = push-Keeps _ v v (Frame-refl v)
  execute-Keeps op_ws_get_uptime v = push-Keeps _ v v (Frame-refl v)
  execute-Keeps op_async v = exec_async-Keeps v
  execute-Keeps op_await v = exec_await-Keeps host v
  execute-Keeps op_try v = exec_try-Keeps v
  execute-Keeps op_telemetry v = exec_telemetry-Keeps v
  execute-Keeps op_halt v = done v _ (Frame-refl v)
  execute-Keeps _ v = raises

  execute_case-Keeps : (o : Option Opcode) (v : Vm) → Keeps v (execute_case host o v)
  unfolding execute_case
  execute_case-Keeps (some op) v = execute-Keeps op v
  execute_case-Keeps none v = raises

  execute_instruction-Keeps : (byte : ℕ) (v : Vm) → Keeps v (execute_instruction host byte v)
  unfolding execute_instruction
  execute_instruction-Keeps byte v = execute_case-Keeps (opcode_of byte) v

  -- Whatever bytes the program counter stands at, a step that succeeds leaves the step limit, the
  -- globals and the builtins as they were, and a stack of at most 10000 values stays so.
  pub step-Frame : (v : Vm) {w : Vm} → step host v ≡ ok w → Frame v w
  unfolding step
  step-Frame v {w} e = Post-ok {E = Error} (rw e at kept)
    where
      kept : Keeps v (step host v)
      kept = elim (Bool-cases (ltb v.pc (length v.code))) [
        | inl inside ↦ rw (inside, step) (execute_instruction-Keeps _ _)
        | inr outside ↦ rw (outside, step) raises
      ]

  after_round-total :
      (rest : Vm → Option (Fallible (Value × Vm))) (steps limit : ℕ) (s : Fallible Vm)
      → 0 < limit
      → ((w : Vm) → s ≡ ok w → w.max_steps ≡ limit)
      → ((w : Vm) → s ≡ ok w → steps ≤ limit → (r : Fallible (Value × Vm)) × (rest w ≡ some r))
      → (r : Fallible (Value × Vm)) × (after_round host rest steps s ≡ some r)
  unfolding after_round
  after_round-total rest steps limit (err e) pos same go = (err e, refl)
  after_round-total rest steps limit (ok w) pos same go =
      elim (Bool-cases (over_limit w.max_steps steps)) [
        | inl over ↦ (err Error.step_limit, rw (over, after_round) refl)
        | inr within ↦
            let m : w.max_steps ≡ limit = same w refl in
            let (r, e) = go w refl (within_limit w.max_steps steps limit m pos within) in
            (r, rw (within, after_round) e)
      ]

  run_loop-total :
      (fuel steps : ℕ) (v : Vm)
      → 0 < v.max_steps
      → steps ≤ v.max_steps
      → v.max_steps < fuel + steps
      → (r : Fallible (Value × Vm)) × (run_loop host fuel steps v ≡ some r)
  unfolding run_loop
  run_loop-total zero steps v pos le lt = absurd (omega arith)
  run_loop-total (suc fuel) steps v pos le lt = elim (Bool-cases (running host v)) [
    | inr stopped ↦ (run_result host v, rw (stopped, run_loop) refl)
    | inl goes ↦
        let (r, e) =
          after_round-total (run_loop host fuel (steps + 1)) (steps + 1) v.max_steps (step host v)
            pos (λ w s. (step-Frame v s).0)
            (λ w s le'.
              let m : w.max_steps ≡ v.max_steps = (step-Frame v s).0 in
              run_loop-total fuel (steps + 1) w (omega arith) (omega arith) (omega arith)) in
        (r, rw (goes, run_loop) e)
  ]

  -- With a step limit N that is not 0 a run of the loop ends: N + 1 rounds of fuel always give a
  -- result, whatever the code does.
  pub run_loop-terminates :
      (v : Vm)
      → 0 < v.max_steps
      → (r : Fallible (Value × Vm)) × (run_loop host (v.max_steps + 1) 0 v ≡ some r)
  run_loop-terminates v pos = run_loop-total (v.max_steps + 1) 0 v pos (omega arith) (omega arith)
