-- ===== src/Compiler/Correct/Parts.antt =====
-- Each kind of expression: its code computes its value if the code of its parts does.
use glyphlang.Prelude.{
  ℕ, ◌+◌, ◌≤◌, ◌≡◌, refl, sym, ap, subst, false, List, [], ◌∷◌, ◌++◌, ok, ◌>>=◌, length,
  length-append, arith, bind_assoc, >>=-eq-ok,
}
use glyphlang.Prelude.Maps.{Str, insert}
use glyphlang.Bytes.{put_u32, length-put_u32}
use glyphlang.Eval.{
  eval, eval_fields, eval_elements, depth, depth_fields, depth_elements, literal_meaning, object_of,
}
use glyphlang.Vm.Value.{Value, str, Host, Heap, Fields, Fallible}
use glyphlang.Vm.Machine.{Vm, max_stack_size}
use glyphlang.Vm.Opcode.{
  op_push, op_load_var, op_get_index, op_get_field, op_await, op_try, op_build_array,
  op_build_object,
}
use glyphlang.Vm.Collection.{field_value}
use glyphlang.Vm.Runs.{Runs, Runs-then, finished, Stands, Stands-append, state}
use glyphlang.Vm.Runs.Instructions.{Runs-push, Runs-load}
use glyphlang.Vm.Runs.Building.{
  push_all, push_fields, insert_all, Runs-build_array, Runs-build_object,
}
use glyphlang.Ast.{Literal, Expr, BinOp, UnOp, ObjectFields, Elements, count_fields, count_elements}
use glyphlang.Compiler.Expression.{binary_opcode, unary_opcode}
use glyphlang.Compiler.Correct.Code.{
  Holds, plain, with_operand, count_fields-lt-depth, count_elements-lt-depth, depth-pos,
}
use glyphlang.Compiler.Correct.Steps.{
  lands, at_pc, run_binary, run_unary, run_get_index, run_get_field, run_await, run_try,
}

pub length-with_operand : (op : _) (n : ℕ) → length (with_operand op n) ≡ 5
length-with_operand op n = omega (arith, length-put_u32 n)

-- A push has no result but the stack.
abbrev pushed : {A : Type 0} → A → Fallible (Unit {0})
pushed a = ok tt

-- As many parts are evaluated as the list has.
length-eval_elements :
    (host : Host) (locals globals : Fields) (es : Elements) (h : Heap) {r : List Value × Heap}
    → eval_elements host locals globals es h ≡ ok r
    → length r.0 ≡ count_elements es
unfolding eval_elements count_elements
length-eval_elements host locals globals Elements.no_elements h e = ground arith
length-eval_elements host locals globals (Elements.element x es) h e =
    let (a, p, q) = >>=-eq-ok (eval host locals globals x h) _ e in
    let (b, p', q') = >>=-eq-ok (eval_elements host locals globals es a.1) _ q in
    ground (arith, length-eval_elements host locals globals es a.1 p')

length-eval_fields :
    (host : Host) (locals globals : Fields) (fs : ObjectFields) (h : Heap) {r : Fields × Heap}
    → eval_fields host locals globals fs h ≡ ok r
    → length r.0 ≡ count_fields fs
unfolding eval_fields count_fields
length-eval_fields host locals globals ObjectFields.no_fields h e = ground arith
length-eval_fields host locals globals (ObjectFields.field k x fs) h e =
    let (a, p, q) = >>=-eq-ok (eval host locals globals x h) _ e in
    let (b, p', q') = >>=-eq-ok (eval_fields host locals globals fs a.1) _ q in
    ground (arith, length-eval_fields host locals globals fs a.1 p')

object_of-insert_all : (kvs : Fields) → insert_all kvs [] ≡ object_of kvs
unfolding object_of
object_of-insert_all [] = refl
object_of-insert_all ((k, v) ∷ kvs) = ap (insert k v) (object_of-insert_all kvs)

module _ (host : Host) (vm : Vm) (live : vm.halted ≡ false) where
  -- A first part of the code, and what follows it.
  then_part :
      {A B : Type 0} (first : Fallible A) (place : A → List Value × Heap) (xs ys : List ℕ) (pc : ℕ)
      {v : Vm} (m : A → Fallible B) (f : B → List Value × Heap)
      → Runs host v (first >>= λ a. ok (state vm (pc + length xs) (place a).0 (place a).1))
      → ((a : A)
          → first ≡ ok a
          → Runs host
              (state vm (pc + length xs) (place a).0 (place a).1)
              (m a >>= λ x. ok (state vm (pc + length xs + length ys) (f x).0 (f x).1)))
      → Runs host v ((first >>= m) >>= λ x. ok (state vm (pc + length (xs ++ ys)) (f x).0 (f x).1))
  then_part first place xs ys pc m f run rest = rw bind_assoc (
      Runs-then host first run
        λ a e. at_pc host vm live (m a) f (omega (arith, length-append {0} xs ys)) (rest a e))

  -- The code of an expression, at any place and over any stack with room for it, runs to the
  -- expression's value or fails with its error.
  abbrev pub Computes : Expr → List ℕ → Type 0
  Computes e xs =
      (pc : ℕ) (s : List Value) (h : Heap)
      → Stands vm.code pc xs
      → length s + depth e ≤ max_stack_size
      → Runs host (state vm pc s h)
          (eval host vm.locals vm.globals e h >>= λ r. ok (lands vm (pc + length xs) s r))

  abbrev pub ComputesElements : Elements → List ℕ → Type 0
  ComputesElements es xs =
      (pc : ℕ) (s : List Value) (h : Heap)
      → Stands vm.code pc xs
      → length s + depth_elements es ≤ max_stack_size
      → Runs host (state vm pc s h) (
          eval_elements host vm.locals vm.globals es h >>= λ r.
          ok (state vm (pc + length xs) (push_all r.0 s) r.1))

  abbrev pub ComputesFields : ObjectFields → List ℕ → Type 0
  ComputesFields fs xs =
      (pc : ℕ) (s : List Value) (h : Heap)
      → Stands vm.code pc xs
      → length s + depth_fields fs ≤ max_stack_size
      → Runs host (state vm pc s h) (
          eval_fields host vm.locals vm.globals fs h >>= λ r.
          ok (state vm (pc + length xs) (push_fields r.0 s) r.1))

  then_code :
      (e : Expr) (xs ys : List ℕ) (pc : ℕ) (s : List Value) (h : Heap) {A : Type 0}
      (m : Value × Heap → Fallible A) (f : A → List Value × Heap)
      → Computes e xs
      → Stands vm.code pc (xs ++ ys)
      → length s + depth e ≤ max_stack_size
      → ((a : Value × Heap)
          → Stands vm.code (pc + length xs) ys
          → Runs host
              (lands vm (pc + length xs) s a)
              (m a >>= λ x. ok (state vm (pc + length xs + length ys) (f x).0 (f x).1)))
      → Runs host (state vm pc s h) (
          (eval host vm.locals vm.globals e h >>= m) >>= λ x.
          ok (state vm (pc + length (xs ++ ys)) (f x).0 (f x).1))
  then_code e xs ys pc s h m f run here room rest =
      let (at_e, at_rest) = Stands-append vm.code pc xs ys here in
      then_part (eval host vm.locals vm.globals e h) (λ r. (r.0 ∷ s, r.1)) xs ys pc m f
        (run pc s h at_e room) λ a _. rest a at_rest

  pub binary-Computes :
      (op : BinOp) (l r : Expr) (xs ys : List ℕ)
      → Computes l xs
      → Computes r ys
      → Computes (Expr.binary op l r) (xs ++ (ys ++ plain (binary_opcode op)))
  unfolding eval depth
  binary-Computes op l r xs ys dl dr pc s h here room =
      then_code l xs (ys ++ plain (binary_opcode op)) pc s h _ (λ x. (x.0 ∷ s, x.1)) dl here
        (omega arith)
        λ a at_r.
          then_code r ys (plain (binary_opcode op)) (pc + length xs) (a.0 ∷ s) a.1 _
            (λ x. (x.0 ∷ s, x.1)) dr at_r (omega arith)
            λ b at_op. run_binary host vm live op a.0 b.0 _ s b.1 at_op (omega arith)

  pub unary-Computes :
      (op : UnOp) (e : Expr) (xs : List ℕ)
      → Computes e xs
      → Computes (Expr.unary op e) (xs ++ plain (unary_opcode op))
  unfolding eval depth
  unary-Computes op e xs d pc s h here room =
      then_code e xs (plain (unary_opcode op)) pc s h _ (λ x. (x.0 ∷ s, x.1)) d here room
        λ a at_op.
          rw bind_assoc (run_unary host vm live op a.0 _ s a.1 at_op (omega (arith, depth-pos e)))

  pub await-Computes :
      (e : Expr) (xs : List ℕ) → Computes e xs → Computes (Expr.await e) (xs ++ plain op_await)
  unfolding eval depth
  await-Computes e xs d pc s h here room =
      then_code e xs (plain op_await) pc s h _ (λ x. (x.0 ∷ s, x.1)) d here room
        λ a at_op.
          rw bind_assoc (run_await host vm live a.0 _ s a.1 at_op (omega (arith, depth-pos e)))

  pub try-Computes :
      (e : Expr) (xs : List ℕ) → Computes e xs → Computes (Expr.try e) (xs ++ plain op_try)
  unfolding eval depth
  try-Computes e xs d pc s h here room =
      then_code e xs (plain op_try) pc s h _ (λ x. (x.0 ∷ s, x.1)) d here room
        λ a at_op.
          rw bind_assoc (run_try host vm live a.0 _ s a.1 at_op (omega (arith, depth-pos e)))

  pub array_index-Computes :
      (a i : Expr) (xs ys : List ℕ)
      → Computes a xs
      → Computes i ys
      → Computes (Expr.array_index a i) (xs ++ (ys ++ plain op_get_index))
  unfolding eval depth
  array_index-Computes a i xs ys da di pc s h here room =
      then_code a xs (ys ++ plain op_get_index) pc s h _ (λ x. (x.0 ∷ s, x.1)) da here (omega arith)
        λ x at_i.
          then_code i ys (plain op_get_index) (pc + length xs) (x.0 ∷ s) x.1 _ (λ y. (y.0 ∷ s, y.1))
            di at_i (omega arith)
            λ n at_op.
              rw bind_assoc (run_get_index host vm live x.0 n.0 _ s n.1 at_op (omega arith))

  pub literal-Computes :
      (l : Literal) (i : ℕ)
      → Holds vm.constants i (literal_meaning l)
      → Computes (Expr.literal l) (with_operand op_push i)
  unfolding eval depth put_u32
  literal-Computes l i k pc s h here room =
      Runs-push host vm live i pc (literal_meaning l) s h k.small k.found here (omega arith)

  pub variable-Computes :
      (name : Str) (i : ℕ)
      → Holds vm.constants i (str name)
      → Computes (Expr.variable name) (with_operand op_load_var i)
  unfolding eval depth put_u32
  variable-Computes name i k pc s h here room =
      rw bind_assoc (Runs-load host vm live i pc name s h k.small k.found here (omega arith))

  pub field_access-Computes :
      (e : Expr) (xs : List ℕ) (name : Str) (i : ℕ)
      → Computes e xs
      → Holds vm.constants i (str name)
      → Computes (Expr.field_access e name) (xs ++ (with_operand op_push i ++ plain op_get_field))
  unfolding eval depth put_u32
  field_access-Computes e xs name i d k pc s h here room =
      then_code e xs (with_operand op_push i ++ plain op_get_field) pc s h _ (λ x. (x.0 ∷ s, x.1)) d
        here (omega arith)
        λ o rest.
          let (at_push, at_op) =
            Stands-append vm.code (pc + length xs) (with_operand op_push i) (plain op_get_field)
              rest in
          then_part (pushed o) (λ _. (str name ∷ o.0 ∷ s, o.1)) (with_operand op_push i)
            (plain op_get_field) (pc + length xs)
            (λ _. field_value o.0 (str name) o.1 >>= λ v. ok (v, o.1)) (λ x. (x.0 ∷ s, x.1))
            (Runs-push host vm live i _ (str name) (o.0 ∷ s) o.1 k.small k.found at_push
              (omega arith))
            λ _ _.
              rw bind_assoc (run_get_field host vm live o.0 (str name) _ s o.1 at_op (omega arith))

  pub no_elements-Computes : ComputesElements Elements.no_elements []
  unfolding eval_elements
  no_elements-Computes pc s h here room =
      at_pc host vm live (pushed vm) (λ _. (s, h)) (omega arith) (finished (state vm pc s h))

  pub element-Computes :
      (e : Expr) (es : Elements) (xs ys : List ℕ)
      → Computes e xs
      → ComputesElements es ys
      → ComputesElements (Elements.element e es) (xs ++ ys)
  unfolding eval_elements depth_elements
  element-Computes e es xs ys d ds pc s h here room =
      then_code e xs ys pc s h _ (λ x. (push_all x.0 s, x.1)) d here (omega arith)
        λ a rest. rw bind_assoc (ds _ (a.0 ∷ s) a.1 rest (omega arith))

  pub array-Computes :
      (es : Elements) (xs : List ℕ)
      → ComputesElements es xs
      → Computes (Expr.array es) (xs ++ with_operand op_build_array (count_elements es))
  unfolding eval depth put_u32
  array-Computes es xs d pc s h here room =
      let (at_parts, at_op) =
        Stands-append vm.code pc xs (with_operand op_build_array (count_elements es)) here in
      then_part (eval_elements host vm.locals vm.globals es h) (λ r. (push_all r.0 s, r.1)) xs
        (with_operand op_build_array (count_elements es)) pc _ (λ x. (x.0 ∷ s, x.1))
        (d pc s h at_parts room)
        λ vs e.
          let n : length vs.0 ≡ count_elements es =
            length-eval_elements host vm.locals vm.globals es h e in
          Runs-build_array host vm live vs.0 _ s vs.1 (omega (arith, count_elements-lt-depth es))
            (subst (λ m. Stands vm.code (pc + length xs) (with_operand op_build_array m)) (sym n)
              at_op)
            (omega (arith, count_elements-lt-depth es))

  pub no_fields-Computes : ComputesFields ObjectFields.no_fields []
  unfolding eval_fields
  no_fields-Computes pc s h here room =
      at_pc host vm live (pushed vm) (λ _. (s, h)) (omega arith) (finished (state vm pc s h))

  pub field-Computes :
      (key : Str) (i : ℕ) (e : Expr) (fs : ObjectFields) (xs ys : List ℕ)
      → Holds vm.constants i (str key)
      → Computes e xs
      → ComputesFields fs ys
      → ComputesFields (ObjectFields.field key e fs) (with_operand op_push i ++ (xs ++ ys))
  unfolding eval_fields depth_fields put_u32
  field-Computes key i e fs xs ys k d ds pc s h here room =
      let (at_push, rest) = Stands-append vm.code pc (with_operand op_push i) (xs ++ ys) here in
      then_part (pushed vm) (λ _. (str key ∷ s, h)) (with_operand op_push i) (xs ++ ys) pc
        (λ _. eval_fields host vm.locals vm.globals (ObjectFields.field key e fs) h)
        (λ x. (push_fields x.0 s, x.1))
        (Runs-push host vm live i pc (str key) s h k.small k.found at_push (omega arith))
        λ _ _.
          then_code e xs ys (pc + 5) (str key ∷ s) h _ (λ x. (push_fields x.0 s, x.1)) d rest
            (omega arith)
            λ a at_rest. rw bind_assoc (ds _ (a.0 ∷ str key ∷ s) a.1 at_rest (omega arith))

  pub object-Computes :
      (fs : ObjectFields) (xs : List ℕ)
      → ComputesFields fs xs
      → Computes (Expr.object fs) (xs ++ with_operand op_build_object (count_fields fs))
  unfolding eval depth put_u32
  object-Computes fs xs d pc s h here room =
      let (at_parts, at_op) =
        Stands-append vm.code pc xs (with_operand op_build_object (count_fields fs)) here in
      then_part (eval_fields host vm.locals vm.globals fs h) (λ r. (push_fields r.0 s, r.1)) xs
        (with_operand op_build_object (count_fields fs)) pc _ (λ x. (x.0 ∷ s, x.1))
        (d pc s h at_parts room)
        λ kvs e.
          let n : length kvs.0 ≡ count_fields fs =
            length-eval_fields host vm.locals vm.globals fs h e in
          rw (← object_of-insert_all kvs.0) (
            Runs-build_object host vm live kvs.0 _ s kvs.1 (omega (arith, count_fields-lt-depth fs))
              (subst (λ m. Stands vm.code (pc + length xs) (with_operand op_build_object m)) (sym n)
                at_op)
              (omega (arith, count_fields-lt-depth fs)))
