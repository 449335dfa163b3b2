-- ===== src/Vm/Frame/Flow.antt =====
-- The instructions for variables, jumps, calls and futures keep the frame.
use glyphlang.Prelude.{
  ℕ, zero, suc, Bool, true, false, List, [], ◌∷◌, Option, some, none, ok, if◌then◌else◌,
}
use glyphlang.Prelude.Post.{returns, raises}
use glyphlang.Vm.Value.{Value, Host, Builtin}
use glyphlang.Vm.Machine.{Vm, CallFrame, FunctionValue, constant_at, expect_name}
use glyphlang.Vm.Control.{
  variable_value, exec_push, exec_pop, exec_load_var, exec_store_var, exec_jump, exec_jump_if,
  read_params, exec_def_func, exec_return, return_to, enter_bytecode, enter_function, call_resolved,
  call_named, exec_call, exec_http_return, exec_telemetry, exec_async, exec_await, exec_try,
}
use glyphlang.Vm.Frame.Basic.{
  Frame, Frame-refl, Keeps, KeepsWith, push-Frame, push-Keeps, pop-Keeps, read_operand-Keeps, after,
  after_with, after_value, after_value_with, done,
}
use glyphlang.Vm.Frame.Values.{pop_values-Keeps}

pub exec_push-Keeps : (v : Vm) → Keeps v (exec_push v)
unfolding exec_push
exec_push-Keeps v =
    after v (read_operand-Keeps v) λ i. after_value _ λ c. push-Keeps c i.1 i.1 (Frame-refl i.1)

pub exec_pop-Keeps : (v : Vm) → Keeps v (exec_pop v)
unfolding exec_pop
exec_pop-Keeps v = after v (pop-Keeps v) λ x. done x.1 x.1 (Frame-refl x.1)

pub exec_load_var-Keeps : (v : Vm) → Keeps v (exec_load_var v)
unfolding exec_load_var
exec_load_var-Keeps v = after v (read_operand-Keeps v) λ i. after_value (constant_at i.0 i.1) λ c.
    after_value (expect_name c) λ name.
      after_value (variable_value i.1.locals i.1.globals name)
        λ x. push-Keeps x i.1 i.1 (Frame-refl i.1)

pub exec_store_var-Keeps : (v : Vm) → Keeps v (exec_store_var v)
unfolding exec_store_var
exec_store_var-Keeps v = after v (read_operand-Keeps v) λ i. after_value (constant_at i.0 i.1) λ c.
    after_value (expect_name c) λ name. after i.1 (pop-Keeps i.1) λ x. done x.1 _ (Frame-refl x.1)

pub exec_jump-Keeps : (v : Vm) → Keeps v (exec_jump v)
unfolding exec_jump
exec_jump-Keeps v = after v (read_operand-Keeps v) λ i. done i.1 _ (Frame-refl i.1)

choose_pc :
    (b : Bool) (target : ℕ) (v : Vm) → Keeps v (ok (if b then record v { pc = target } else v))
choose_pc true target v = done v _ (Frame-refl v)
choose_pc false target v = done v v (Frame-refl v)

pub exec_jump_if-Keeps : (wanted : Bool) (v : Vm) → Keeps v (exec_jump_if wanted v)
unfolding exec_jump_if
exec_jump_if-Keeps wanted v =
    after v (read_operand-Keeps v)
      λ i. after i.1 (pop-Keeps i.1) λ x. after_value _ λ b. choose_pc _ i.0 x.1

read_params-Keeps : (n : ℕ) (v : Vm) → KeepsWith v (read_params n v)
unfolding read_params
read_params-Keeps zero v = returns (Frame-refl v)
read_params-Keeps (suc n) v = after_with v (read_operand-Keeps v) λ i.
    after_value_with (constant_at i.0 i.1) λ c.
      after_value_with (expect_name c)
        λ name. after_with i.1 (read_params-Keeps n i.1) λ ps. returns (Frame-refl ps.1)

pub exec_def_func-Keeps : (v : Vm) → Keeps v (exec_def_func v)
unfolding exec_def_func
exec_def_func-Keeps v = after v (read_operand-Keeps v) λ i. after_value (constant_at i.0 i.1) λ c.
    after_value (expect_name c) λ name. after i.1 (read_operand-Keeps i.1) λ n.
      after n.1 (read_operand-Keeps n.1)
        λ len. after len.1 (read_params-Keeps n.0 len.1) λ ps. done ps.1 _ (Frame-refl ps.1)

pub exec_return-Keeps : (v : Vm) → Keeps v (exec_return v)
unfolding exec_return
exec_return-Keeps v = done v _ (go v.call_stack)
  where
    go : (frames : List CallFrame) → Frame v (return_to frames v)
    go [] = Frame-refl v
    go (frame ∷ frames) = Frame-refl v

enter_bytecode-Keeps :
    (code : Option (List ℕ)) (fn : FunctionValue) (v : Vm) → Keeps v (enter_bytecode code fn v)
unfolding enter_bytecode
enter_bytecode-Keeps none fn v = done v _ (Frame-refl v)
enter_bytecode-Keeps (some code) fn v = after_value _ λ offset. done v _ (Frame-refl v)

call_resolved-Keeps :
    (b : Option Builtin) (f : Option FunctionValue) (args : List Value) (v : Vm)
    → Keeps v (call_resolved b f args v)
unfolding call_resolved enter_function
call_resolved-Keeps (some b) f args v = after_value _ λ r. push-Keeps r.0 v _ (Frame-refl v)
call_resolved-Keeps none (some fn) args v = enter_bytecode-Keeps fn.bytecode fn _
call_resolved-Keeps none none args v = raises

pub exec_call-Keeps : (v : Vm) → Keeps v (exec_call v)
unfolding exec_call call_named
exec_call-Keeps v = after v (read_operand-Keeps v) λ n.
    after n.1 (pop_values-Keeps n.0 [] n.1) λ args.
      after args.1 (pop-Keeps args.1)
        λ fn. after_value _ λ name. call_resolved-Keeps _ _ args.0 fn.1

pub exec_http_return-Keeps : (v : Vm) → Keeps v (exec_http_return v)
unfolding exec_http_return
exec_http_return-Keeps v = after v (pop-Keeps v) λ x. done x.1 _ (push-Frame x.0 x.1)

pub exec_telemetry-Keeps : (v : Vm) → Keeps v (exec_telemetry v)
unfolding exec_telemetry
exec_telemetry-Keeps v =
    after v (pop-Keeps v)
      λ x. after x.1 (pop-Keeps x.1) λ s. after_value _ λ _. done s.1 s.1 (Frame-refl s.1)

pub exec_async-Keeps : (v : Vm) → Keeps v (exec_async v)
unfolding exec_async
exec_async-Keeps v =
    after v (read_operand-Keeps v) λ n. after_value _ λ _. push-Keeps _ n.1 _ (Frame-refl n.1)

pub exec_await-Keeps : (host : Host) (v : Vm) → Keeps v (exec_await host v)
unfolding exec_await
exec_await-Keeps host v =
    after v (pop-Keeps v) λ x. after_value _ λ r. push-Keeps r x.1 x.1 (Frame-refl x.1)

pub exec_try-Keeps : (v : Vm) → Keeps v (exec_try v)
unfolding exec_try
exec_try-Keeps v =
    after v (pop-Keeps v) λ x. after_value _ λ r. push-Keeps r x.1 x.1 (Frame-refl x.1)
