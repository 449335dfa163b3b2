-- ===== src/Compiler/Routes/Running.antt =====
-- A compiled body in its container, run by Execute.
use glyphlang.Prelude.{
  ℕ, suc, ◌+◌, ◌≤◌, ◌<◌, ◌^◌, ◌≡◌, refl, sym, ◌∙◌, ap, subst, Bool, true, false, not, List, [], ◌∷◌,
  ◌++◌, append-nil, append_assoc, some, ok, err, ◌>>=◌, arith, length, length-append,
  get_elem?-append_length,
}
use glyphlang.Vm.Value.{Value, null, Host, Fallible}
use glyphlang.Vm.Machine.{Vm, max_stack_size}
use glyphlang.Vm.Step.{run_loop}
use glyphlang.Vm.Runs.{Runs-append, Stands, Stands-append}
use glyphlang.Vm.Runs.Loop.{Runs-run_loop}
use glyphlang.Exec.{Env, Outcome, normal, returned, broken, continued, room_for_block}
use glyphlang.Ast.{Block}
use glyphlang.Compiler.State.{Compiler}
use glyphlang.Compiler.State.Pool.{FloatEqLaw, Extends, Extends-trans}
use glyphlang.Compiler.Control.{compile_block}
use glyphlang.Compiler.Expression.{to_u32}
use glyphlang.Compiler.Container.Adjusting.{length-adjust_jump_targets}
use glyphlang.Compiler.Container.{adjust_jump_targets}
use glyphlang.Compiler.Container.Whole.{Loads}
use glyphlang.Compiler.Correct.Jumps.{place}
use glyphlang.Compiler.Correct.Arrivals.{Arrives}
use glyphlang.Compiler.Correct.Relocation.{Relocates-append}
use glyphlang.Compiler.Correct.Relocated.{BlockCode-Moved}
use glyphlang.Compiler.Correct.StatementParts.{exits}
use glyphlang.Compiler.Correct.StatementCode.{BlockCode}
use glyphlang.Compiler.Correct.Settling.{Settled}
use glyphlang.Compiler.Correct.Statements.{IsCoveredBlock, compile_block-Placed}
use glyphlang.Compiler.Correct.Placement.{continue_of}
use glyphlang.Compiler.Correct.Programs.{finished_at, returned_loop}
use glyphlang.Compiler.Routes.{Ending, returns_null, finish}
use glyphlang.Compiler.Routes.Declaring.{IsEmpty}
use glyphlang.Compiler.Routes.Finishing.{Ends, Stops, ReturnsNull, finish-Ends}

Stands-from : (pre xs ys : List ℕ) → Stands (pre ++ (xs ++ ys)) (length pre) xs
Stands-from pre [] ys = tt
Stands-from pre (b ∷ bs) ys =
    let longer : length (pre ++ b ∷ []) ≡ length pre + 1 =
      omega (arith, length-append {0} pre (b ∷ [])) in
    (
      get_elem?-append_length pre b (bs ++ ys),
      subst (λ p. Stands (pre ++ b ∷ (bs ++ ys)) p bs) longer
          (subst (λ l. Stands l (length (pre ++ b ∷ [])) bs) (append_assoc pre (b ∷ []) (bs ++ ys))
            (Stands-from (pre ++ b ∷ []) bs ys)),
    )

-- The code of a body and the code behind it.
pub record BodyCode (host : Host) (ending : Ending) (b : Block) (c c' : Compiler) (stops : Bool)
    : Type 0 where
  pub bytes : List ℕ
  pub tail : Ends host ending c c' stops
  pub code : c'.code ≡ bytes ++ tail.bytes
  pub implements :
      (pool : List Value)
      → Extends c'.constants pool
      → length pool ≤ 2 ^ 32
      → length c'.code < 2 ^ 32
      → BlockCode pool 0 0 0 b bytes

-- The same in a container, behind its header.
pub record Contains (host : Host) (ending : Ending) (b : Block) (stops : Bool) (machine : Vm)
    (entry : ℕ) : Type 0 where
  pub bytes : List ℕ
  pub code : BlockCode machine.constants entry entry entry b bytes
  pub stands : Stands machine.code entry bytes
  pub ends :
      stops ≡ true
      → machine.call_stack ≡ []
      → (env : Env) → Stops host machine env null (place machine env (entry + length bytes) [])
  pub returns :
      ending ≡ returns_null
      → stops ≡ true
      → (env : Env) (s : List Value) → length s < max_stack_size
      → ReturnsNull host machine env s (place machine env (entry + length bytes) s)

module _ (host : Host) (law : FloatEqLaw host) where
  pub body-BodyCode :
      (b : Block) (ending : Ending) (e : Bool) (c c₁ : Compiler)
      → compile_block host b c ≡ ok c₁
      → IsEmpty c
      → IsCoveredBlock b
      → room_for_block b ≤ max_stack_size
      → BodyCode host ending b c₁ (finish host ending e c₁) (not e)
  body-BodyCode b ending e c c₁ eq empty covered room =
      let out = compile_block-Placed host law b c c₁ eq empty.ready covered in
      let tail = finish-Ends host law ending e c₁ out.ready in
      let c' = finish host ending e c₁ in
      let outside : continue_of c.loop_stack ≡ 0 = ap continue_of empty.no_loop in
      let at_start : length c.code ≡ 0 = ap length empty.no_code in
      record {
        bytes = out.bytes 0;
        tail = tail;
        code =
            tail.code
            ∙ ap (λ (l : List ℕ). l ++ tail.bytes)
                (out.pieces.code ∙ ap (λ (l : List ℕ). l ++ out.bytes 0) empty.no_code);
        implements = λ pool x small fits.
            let shorter : length c₁.code ≤ length c'.code =
              omega (arith, ap length tail.code, length-append c₁.code tail.bytes) in
            subst (λ k. BlockCode pool 0 k 0 b (out.bytes 0)) outside
              (subst (λ p. BlockCode pool 0 (continue_of c.loop_stack) p b (out.bytes 0)) at_start
                (out.implements pool 0 (Extends-trans c₁.constants c'.constants pool tail.grows x)
                  small (omega arith) (omega arith) (omega (arith, outside)) room));
      }

  pub BodyCode-Contains :
      (ending : Ending) (b : Block) (c c' : Compiler) (stops : Bool) (bytes : List ℕ)
      → BodyCode host ending b c c' stops
      → (l : Loads c' bytes) → length bytes < 2 ^ 32
      → length c'.constants ≤ 2 ^ 32
      → (machine : Vm) → machine.halted ≡ false
      → machine.code ≡ bytes
      → machine.constants ≡ c'.constants
      → Contains host ending b stops machine (length l.header)
  BodyCode-Contains ending b c c' stops bytes body l small few machine live code pool =
      let header = length l.header in
      let long : header + length c'.code ≡ length bytes = omega (
        arith,
        ap length l.layout,
        length-append l.header (adjust_jump_targets (to_u32 header) c'.code),
        length-adjust_jump_targets (to_u32 header) c'.code,
      ) in
      let target : to_u32 header ≡ header = omega arith in
      let parts : length c'.code ≡ length body.bytes + length body.tail.bytes =
        ap length body.code ∙ length-append body.bytes body.tail.bytes in
      let x : Extends c'.constants machine.constants = ([], pool ∙ sym (append-nil c'.constants)) in
      let room : length machine.constants ≤ 2 ^ 32 = omega (arith, ap length pool) in
      let moved =
        BlockCode-Moved header machine.constants
          (body.implements machine.constants x room (omega arith)) (omega arith) (omega arith)
          (omega arith) in
      let ys = moved.bytes ++ body.tail.bytes in
      let rest = adjust_jump_targets header [] in
      let passed : adjust_jump_targets (to_u32 header) c'.code ≡ ys ++ rest =
        ap (λ (n : ℕ). adjust_jump_targets n c'.code) target
        ∙ ap (adjust_jump_targets header)
            (body.code ∙ sym (append-nil (body.bytes ++ body.tail.bytes)))
        ∙ (Relocates-append header moved.relocates (body.tail.same header)).pass [] in
      let whole : machine.code ≡ l.header ++ (ys ++ rest) =
        code ∙ l.layout ∙ ap (λ (r : List ℕ). l.header ++ r) passed in
      let stands : Stands machine.code header ys = rw whole (Stands-from l.header ys rest) in
      let (first, second) = Stands-append machine.code header moved.bytes body.tail.bytes stands in
      let begin : 0 + header ≡ header = omega arith in
      record {
        bytes = moved.bytes;
        code = rw begin at moved.holds;
        stands = first;
        ends = λ e top env.
            body.tail.ends e machine env (header + length moved.bytes) live top x room second;
        returns = λ is e env s free.
            body.tail.returns is e machine env (header + length moved.bytes) s live free x room
              second;
      }

-- What the reference's outcome is for the caller: a body that ends normally has the value null.
abbrev pub answer : Outcome → Value × Env
answer (returned v env) = (v, env)
answer (normal env) = (null, env)
answer (broken env) = (null, env)
answer (continued env) = (null, env)

-- Nothing follows a body that ends with a return, so it must not end normally.
abbrev pub Concludes : Bool → Fallible Outcome → Type 0
Concludes ends_with_return (ok (normal env)) = ends_with_return ≡ false
Concludes ends_with_return _ = Unit

module _ (host : Host) (vm : Vm) (top : vm.call_stack ≡ []) (free : vm.max_steps ≡ 0) where
  -- The loop from `v` on returns what the outcome says.
  abbrev pub Answers : Vm → Fallible Outcome → Type 0
  Answers v m =
      (n : ℕ) × (pc : ℕ) × ((extra : ℕ)
        → run_loop host (n + suc (suc extra)) 0 v
          ≡ some (m >>= λ o. ok ((answer o).0, finished_at vm pc (answer o))))

  pub arrived-Answers :
      (e : Bool) (m : Fallible Outcome) (end_at brk cont : ℕ) (v : Vm)
      → v.max_steps ≡ 0
      → Arrives host vm [] (exits end_at brk cont) v (some m)
      → Settled (some m)
      → Concludes e m
      → ((env : Env) → e ≡ false → Stops host vm env null (place vm env end_at []))
      → Answers v m
  arrived-Answers e (err f) end_at brk cont v free run settled concludes stops =
      let (n, loop) = Runs-run_loop host run free in
      (n, 0, λ extra. let (k, done) = loop (n + suc (suc extra)) (suc extra) 0 refl in done)
  arrived-Answers e (ok (returned x env)) end_at brk cont v free (pc, run) settled concludes stops =
      let (n, loop) = Runs-run_loop host run free in
      (
        n,
        pc,
        λ extra.
            let (k, done) = loop (n + suc (suc extra)) (suc extra) 0 refl in
            done ∙ returned_loop host vm (x, env) pc (suc extra) k top,
      )
  arrived-Answers e (ok (normal env)) end_at brk cont v free run settled concludes stops =
      let s = stops env concludes in
      let (n, loop) = Runs-run_loop host (Runs-append host run refl s.run) free in
      (
        n,
        s.pc,
        λ extra.
            let (k, done) = loop (n + suc (suc extra)) (suc extra) 0 refl in
            done ∙ s.result (suc extra) k,
      )
  arrived-Answers e (ok (broken env)) end_at brk cont v free run settled concludes stops =
      elim settled [ ]
  arrived-Answers e (ok (continued env)) end_at brk cont v free run settled concludes stops =
      elim settled [ ]
