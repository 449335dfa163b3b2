-- ===== src/Compiler/Routes/Theorems.antt =====
-- Compiled routes, functions and the like, from the source's body to the result of Execute.
use glyphlang.Prelude.{
  ℕ, suc, ◌+◌, ◌≤◌, ◌<◌, ◌^◌, ◌≡◌, refl, ◌∙◌, ap, subst, Bool, false, not, List, [], ◌++◌, some, ok,
  ◌>>=◌, >>=-eq-ok, arith, length,
}
use glyphlang.Prelude.Maps.{Str}
use glyphlang.Vm.Value.{Value, Host, Fallible}
use glyphlang.Vm.Machine.{Vm, max_stack_size}
use glyphlang.Vm.Loader.{load}
use glyphlang.Vm.Step.{execute_bytecode}
use glyphlang.Exec.{Env, Outcome, exec_block, room_for_block}
use glyphlang.Compiler.State.{Compiler}
use glyphlang.Compiler.State.Pool.{FloatEqLaw}
use glyphlang.Compiler.Control.{compile_block}
use glyphlang.Compiler.Container.{build_bytecode}
use glyphlang.Compiler.Container.Whole.{IsStorablePool, build_bytecode-Loads}
use glyphlang.Compiler.Correct.Jumps.{place}
use glyphlang.Compiler.Correct.Arrivals.{Arrives}
use glyphlang.Compiler.Correct.StatementParts.{exits}
use glyphlang.Compiler.Correct.StatementRuns.{BlockCode-Arrives}
use glyphlang.Compiler.Correct.Settling.{Settled, exec_block-Settled}
use glyphlang.Compiler.Correct.Statements.{IsCoveredBlock}
use glyphlang.Compiler.Correct.Programs.{finished_at}
use glyphlang.Compiler.Routes.{
  Body, Ending, halts, finish, begin_route, compile_body, compile_route,
}
use glyphlang.Compiler.Routes.Declaring.{IsEmpty, begin_route-IsEmpty}
use glyphlang.Compiler.Routes.Running.{
  body-BodyCode, BodyCode-Contains, answer, Concludes, arrived-Answers,
}

-- A machine that has run nothing yet, without a step limit. It may have variables, a heap, globals
-- and builtins.
pub record IsFresh (vm : Vm) : Type 0 where
  pub no_constants : vm.constants ≡ []
  pub no_stack : vm.stack ≡ []
  pub no_caller : vm.call_stack ≡ []
  pub no_limit : vm.max_steps ≡ 0

-- The variables and the heap of a machine.
abbrev pub env_of : Vm → Env
env_of vm = record { locals = vm.locals; heap = vm.heap }

-- Execute, with any fuel above some number, has the result of a machine with this code and these
-- constants that has halted as the outcome says.
abbrev pub Executes : Host → List ℕ → List Value → Vm → Fallible Outcome → Type 0
Executes host bytes pool vm m =
    let vm' = record vm { constants = pool; code = bytes } in
    (n : ℕ) × (pc : ℕ) × ((extra : ℕ)
      → execute_bytecode host (n + suc (suc extra)) bytes vm
        ≡ some (m >>= λ o. ok ((answer o).0, finished_at vm' pc (answer o))))

module _ (host : Host) (law : FloatEqLaw host) where
  finished_body :
      (ending : Ending) (body : Body) (c c₁ : Compiler)
      → compile_block host body.statements c ≡ ok c₁
      → IsEmpty c
      → IsCoveredBlock body.statements
      → room_for_block body.statements ≤ max_stack_size
      → (bytes : List ℕ) → build_bytecode (finish host ending body.ends_with_return c₁) ≡ ok bytes
      → IsStorablePool (finish host ending body.ends_with_return c₁)
      → length bytes < 2 ^ 32
      → (vm : Vm) → IsFresh vm
      → (fuel : ℕ) (m : Fallible Outcome)
      → exec_block host vm.globals fuel body.statements (env_of vm) ≡ some m
      → Concludes body.ends_with_return m
      → Executes host bytes (finish host ending body.ends_with_return c₁).constants vm m
  unfolding execute_bytecode
  finished_body ending body c c₁ eq empty covered room bytes built pool small vm fresh fuel m e
        concludes =
      let c' = finish host ending body.ends_with_return c₁ in
      let l = build_bytecode-Loads c' bytes built pool in
      let entry = length l.header in
      let env = env_of vm in
      let machine : Vm = record vm { constants = c'.constants; code = bytes; halted = false } in
      let parts =
        body-BodyCode host law body.statements ending body.ends_with_return c c₁ eq empty covered
          room in
      let few : length c'.constants ≤ 2 ^ 32 = omega (arith, pool.few) in
      let here =
        BodyCode-Contains host law ending body.statements c₁ c' (not body.ends_with_return) bytes
          parts l small few machine refl refl refl in
      let loaded : load bytes vm ≡ ok (place machine env entry []) =
        l.loads vm
        ∙ ap
            (λ (old : List Value). ok (record vm {
              constants = old ++ c'.constants;
              code = bytes;
              pc = entry;
              halted = false;
            }))
            fresh.no_constants
        ∙ ap (λ (s : List Value). ok (place (record machine { stack = s }) env entry s))
            fresh.no_stack in
      let run =
        BlockCode-Arrives host machine refl [] fuel entry entry entry body.statements here.bytes
          here.code env here.stands (omega arith) in
      let settled =
        exec_block-Settled host law vm.globals fuel body.statements c c₁ env eq empty.ready covered
          empty.no_loop in
      let (n, pc, ends) =
        arrived-Answers host machine fresh.no_caller fresh.no_limit body.ends_with_return m
          (entry + length here.bytes) entry entry (place machine env entry []) fresh.no_limit
          (subst
            (λ r.
              Arrives host machine [] (exits (entry + length here.bytes) entry entry)
                (place machine env entry []) r)
            e run)
          (subst Settled e settled) concludes
          (λ env₁ none. here.ends (ap not none) fresh.no_caller env₁) in
      (n, pc, λ extra. rw (loaded, execute_bytecode) (ends extra))

  -- From a state before the code of a body, in whatever way the body ends.
  built_Executes :
      (ending : Ending) (body : Body) (c : Compiler) (bytes : List ℕ)
      → (compile_body host ending body c >>= build_bytecode) ≡ ok bytes
      → ((c' : Compiler) → compile_body host ending body c ≡ ok c' → IsStorablePool c')
      → length bytes < 2 ^ 32
      → IsEmpty c
      → IsCoveredBlock body.statements
      → room_for_block body.statements ≤ max_stack_size
      → (vm : Vm) → IsFresh vm
      → (fuel : ℕ) (m : Fallible Outcome)
      → exec_block host vm.globals fuel body.statements (env_of vm) ≡ some m
      → Concludes body.ends_with_return m
      → (pool : List Value) × Executes host bytes pool vm m
  unfolding compile_body
  built_Executes ending body c bytes eq pool small empty covered room vm fresh fuel m e concludes =
      let (c', first, built) = >>=-eq-ok (compile_body host ending body c) build_bytecode eq in
      let (c₁, block, last) =
        >>=-eq-ok (compile_block host body.statements c)
          (λ d. ok (finish host ending body.ends_with_return d)) first in
      let same : c' ≡ finish host ending body.ends_with_return c₁ = cc in
      (
        _,
        finished_body ending body c c₁ block empty covered room bytes (rw same at built)
            (subst IsStorablePool same (pool c' first)) small vm fresh fuel m e concludes,
      )

  -- Let CompileRoute write a container of less than 2 ^ 32 bytes for a body, as it is optimized, of
  -- statements without for and switch and with no float literal -0, under the law of float
  -- comparison; let the integers and floats among its constants have 64 bits, and its expressions be
  -- no deeper than the stack. Then Execute of the container on a machine without constants, stack,
  -- callers and step limit, with any variables, heap and globals, ends with any fuel above some
  -- number as the reference `exec_block` on the body with these variables and this heap, if that
  -- ends within its rounds: with the value that is returned, or null where the body ends normally,
  -- or with the error; where it has a value, the machine is halted, its stack empty, and has the
  -- variables and the heap that the reference has left. A body that ends normally has no
  -- *ast.ReturnStatement as its last statement.
  pub compile_route-Executes :
      (path : Str) (injections : List Str) (has_auth : Bool) (body : Body) (bytes : List ℕ)
      → compile_route host path injections has_auth body ≡ ok bytes
      → ((c : Compiler)
          → compile_body host halts body (begin_route host path injections has_auth) ≡ ok c
          → IsStorablePool c)
      → length bytes < 2 ^ 32
      → IsCoveredBlock body.statements
      → room_for_block body.statements ≤ max_stack_size
      → (vm : Vm) → IsFresh vm
      → (fuel : ℕ) (m : Fallible Outcome)
      → exec_block host vm.globals fuel body.statements (env_of vm) ≡ some m
      → Concludes body.ends_with_return m
      → (pool : List Value) × Executes host bytes pool vm m
  unfolding compile_route
  compile_route-Executes path injections has_auth body bytes eq pool small covered room vm fresh
        fuel m e concludes =
      built_Executes halts body (begin_route host path injections has_auth) bytes eq pool small
        (begin_route-IsEmpty host law path injections has_auth) covered room vm fresh fuel m e
        concludes
