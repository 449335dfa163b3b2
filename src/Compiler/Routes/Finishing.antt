-- ===== src/Compiler/Routes/Finishing.antt =====
-- What the code behind a body does: the machine halts without a value, or returns null.
use glyphlang.Prelude.{
  ℕ, suc, ◌+◌, ◌≤◌, ◌<◌, ◌^◌, ◌≡◌, refl, sym, ◌∙◌, ap, subst, Bool, true, false, not, List, [], ◌∷◌,
  ◌++◌, append-nil, append_assoc, some, ok, arith, length,
}
use glyphlang.Vm.Value.{Value, null, Host}
use glyphlang.Vm.Opcode.{op_push, op_return, op_halt, opcode_byte}
use glyphlang.Vm.Machine.{Vm, max_stack_size}
use glyphlang.Vm.Control.{return_to}
use glyphlang.Vm.Step.{execute, run_loop, run_result, running}
use glyphlang.Vm.Runs.{Runs, Runs-append, Stands, Stands-append}
use glyphlang.Vm.Runs.Instructions.{Runs-opcode, Runs-push}
use glyphlang.Exec.{Env}
use glyphlang.Compiler.State.{Compiler, add_constant, emit, emit_with_operand}
use glyphlang.Compiler.State.Pool.{FloatEqLaw, Extends, Extends-refl, add_constant-Added}
use glyphlang.Compiler.Expression.{to_u32, compile_constant}
use glyphlang.Compiler.Container.{is_jump, has_operand}
use glyphlang.Compiler.Correct.Code.{Holds, plain, with_operand}
use glyphlang.Compiler.Correct.Parts.{length-with_operand}
use glyphlang.Compiler.Correct.Emission.{IsReady, place-Holds}
use glyphlang.Compiler.Correct.Jumps.{place, Runs-return}
use glyphlang.Compiler.Correct.Relocation.{
  Relocates, Relocates-nil, Relocates-append, Relocates-plain, Relocates-operand,
}
use glyphlang.Compiler.Correct.Programs.{finished_at, returned_loop}
use glyphlang.Compiler.Routes.{Ending, halts, returns_null, finish}

-- From a state, the machine comes to an end from which the loop returns the value, with the
-- variables and the heap of `env` and an empty stack.
pub record Stops (host : Host) (vm : Vm) (env : Env) (value : Value) (v : Vm) : Type 0 where
  pub last : Vm
  pub pc : ℕ
  pub run : Runs host v (ok last)
  pub result :
      (fuel steps : ℕ)
      → run_loop host (suc fuel) steps last ≡ some (ok (value, finished_at vm pc (value, env)))

-- From a state, the machine returns null to its caller, over a stack.
pub record ReturnsNull (host : Host) (vm : Vm) (env : Env) (s : List Value) (v : Vm) : Type 0 where
  pub pc : ℕ
  pub run : Runs host v (ok (return_to vm.call_stack (place vm env pc (null ∷ s))))

-- From `c` to `c'` bytes were appended that stay as they are when jumps are moved, and that end a
-- run with null. With a caller and with values below, what a function has behind its body returns.
pub record Ends (host : Host) (ending : Ending) (c c' : Compiler) (stops : Bool) : Type 0 where
  pub bytes : List ℕ
  pub code : c'.code ≡ c.code ++ bytes
  pub grows : Extends c.constants c'.constants
  pub same : (header : ℕ) → Relocates header bytes bytes
  pub ends :
      stops ≡ true
      → (vm : Vm) (env : Env) (pc : ℕ) → vm.halted ≡ false
      → vm.call_stack ≡ []
      → Extends c'.constants vm.constants
      → length vm.constants ≤ 2 ^ 32
      → Stands vm.code pc bytes
      → Stops host vm env null (place vm env pc [])
  pub returns :
      ending ≡ returns_null
      → stops ≡ true
      → (vm : Vm) (env : Env) (pc : ℕ) (s : List Value) → vm.halted ≡ false
      → length s < max_stack_size
      → Extends c'.constants vm.constants
      → length vm.constants ≤ 2 ^ 32
      → Stands vm.code pc bytes
      → ReturnsNull host vm env s (place vm env pc s)

module _ (host : Host) where
  halted-Stops :
      (vm : Vm) (env : Env) (pc : ℕ)
      → vm.halted ≡ false
      → Stands vm.code pc (plain op_halt)
      → Stops host vm env null (place vm env pc [])
  unfolding execute run_loop running run_result
  halted-Stops vm env pc live (here, _) = record {
    last = record (place vm env (pc + 1) []) { halted = true };
    pc = pc + 1;
    run =
        Runs-opcode host (record vm { locals = env.locals }) live op_halt pc [] env.heap refl here
          refl;
    result = λ fuel steps. refl;
  }

  halt-Ends : (c : Compiler) → Ends host halts c (emit op_halt c) true
  unfolding emit is_jump has_operand opcode_byte
  halt-Ends c = record {
    bytes = plain op_halt;
    code = refl;
    grows = Extends-refl c.constants;
    same = λ header. Relocates-plain header op_halt refl refl;
    ends = λ e vm env pc live top x small stands. halted-Stops vm env pc live stands;
    returns = λ e. cc;
  }

  null-ReturnsNull :
      (i : ℕ) (vm : Vm) (env : Env) (pc : ℕ) (s : List Value)
      → vm.halted ≡ false
      → length s < max_stack_size
      → Holds vm.constants i null
      → Stands vm.code pc (with_operand op_push i ++ plain op_return)
      → ReturnsNull host vm env s (place vm env pc s)
  null-ReturnsNull i vm env pc s live room k stands =
      let (pushed, returned) =
        Stands-append vm.code pc (with_operand op_push i) (plain op_return) stands in
      let here : Stands vm.code (pc + 5) (plain op_return) =
        subst (λ p. Stands vm.code p (plain op_return))
          (ap (λ (n : ℕ). pc + n) (length-with_operand op_push i)) returned in
      record {
        pc = pc + 5 + 1;
        run =
            Runs-append host
              (Runs-push host (record vm { locals = env.locals }) live i pc null s env.heap k.small
                k.found pushed (omega arith))
              refl (Runs-return host vm live env (pc + 5) (null ∷ s) here);
      }

  null-Stops :
      (vm : Vm) (env : Env) (v : Vm)
      → vm.call_stack ≡ []
      → ReturnsNull host vm env [] v
      → Stops host vm env null v
  null-Stops vm env v top r = record {
    last = return_to vm.call_stack (place vm env r.pc (null ∷ []));
    pc = r.pc;
    run = r.run;
    result = λ fuel steps. returned_loop host vm (null, env) r.pc fuel steps top;
  }

  module _ (law : FloatEqLaw host) where
    null-Ends :
        (c : Compiler)
        → IsReady c
        → Ends host returns_null c (emit op_return (compile_constant host null c)) true
    unfolding emit compile_constant emit_with_operand is_jump has_operand opcode_byte
    null-Ends c ready =
        let added = add_constant-Added host law null c ready.clean (λ e. cc) in
        let (i, c') = add_constant host null c in
        record {
          bytes = with_operand op_push (to_u32 i) ++ plain op_return;
          code =
              ap (λ (l : List ℕ). l ++ with_operand op_push (to_u32 i) ++ plain op_return)
                added.code
              ∙ append_assoc c.code (with_operand op_push (to_u32 i)) (plain op_return);
          grows = added.grows;
          same = λ header.
              Relocates-append header (Relocates-operand header op_push (to_u32 i) refl refl)
                (Relocates-plain header op_return refl refl);
          ends = λ e vm env pc live top x small stands. null-Stops vm env _ top (
              null-ReturnsNull (to_u32 i) vm env pc [] live (omega arith)
                (place-Holds c'.constants vm.constants i null added.found x small) stands);
          returns = λ is e vm env pc s live room x small stands.
              null-ReturnsNull (to_u32 i) vm env pc s live room
                (place-Holds c'.constants vm.constants i null added.found x small) stands;
        }

    -- The code that is appended behind a body ends a run of the body's code with null, unless the body ends with
    -- a return, behind which nothing is appended.
    pub finish-Ends :
        (ending : Ending) (ends_with_return : Bool) (c : Compiler)
        → IsReady c
        → Ends host ending c (finish host ending ends_with_return c) (not ends_with_return)
    unfolding finish
    finish-Ends ending true c ready = record {
      bytes = [];
      code = sym (append-nil c.code);
      grows = Extends-refl c.constants;
      same = λ header. Relocates-nil header;
      ends = λ e. cc;
      returns = λ is e. cc;
    }
    finish-Ends halts false c ready = halt-Ends c
    finish-Ends returns_null false c ready = null-Ends c ready
