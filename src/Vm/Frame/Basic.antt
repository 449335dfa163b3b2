-- ===== src/Vm/Frame/Basic.antt =====
-- The frame of one step, and that the stack, the operands and the constants keep it.
use glyphlang.Prelude.{
  ◌+◌, ◌≤◌, ◌≡◌, refl, ◌∙◌, List, [], ◌∷◌, ok, leb, length, arith, inl, inr, Bool-cases, ◌>>=◌,
}
use glyphlang.Prelude.Post.{Post, returns, raises, Post-bind, any_result}
use glyphlang.Vm.Value.{Value, Fallible}
use glyphlang.Vm.Machine.{Vm, push, pop, read_operand, max_stack_size}

-- `w` follows from `v`: the step limit, the globals and the builtins are those of `v`, and a stack
-- within its limit stays so.
abbrev pub Frame : Vm → Vm → Type 0
Frame v w =
    (w.max_steps ≡ v.max_steps)
    × (w.globals ≡ v.globals)
    × (w.builtins ≡ v.builtins)
    × (length v.stack ≤ max_stack_size → length w.stack ≤ max_stack_size)

pub Frame-refl : (v : Vm) → Frame v v
Frame-refl v = (refl, refl, refl, λ h. h)

pub Frame-trans : (u v w : Vm) → Frame u v → Frame v w → Frame u w
Frame-trans u v w (a, b, c, d) (a', b', c', d') = (a' ∙ a, b' ∙ b, c' ∙ c, λ h. d' (d h))

abbrev pub Keeps : Vm → Fallible Vm → Type 0
Keeps v = Post (Frame v)

-- The same of a call that returns a value with the machine.
abbrev pub KeepsWith : {A : Type 0} → Vm → Fallible (A × Vm) → Type 0
KeepsWith v = Post (λ r. Frame v r.1)

pub push-Frame : (x : Value) (v : Vm) → Frame v (push x v)
unfolding push
push-Frame x v = elim (Bool-cases (leb max_stack_size (length v.stack))) [
  | inl full ↦ rw full (Frame-refl v)
  | inr room ↦ rw room (refl, refl, refl, λ _. ground arith)
]

pub pop-Keeps : (v : Vm) → KeepsWith v (pop v)
unfolding pop
pop-Keeps v = go v.stack refl
  where
    go : (s : List Value) → v.stack ≡ s → KeepsWith v (pop v)
    go [] e = rw (e, pop) raises
    go (x ∷ s) e = rw (e, pop) (returns (refl, refl, refl, λ h. omega arith))

pub read_operand-Keeps : (v : Vm) → KeepsWith v (read_operand v)
unfolding read_operand
read_operand-Keeps v = elim (Bool-cases (leb (v.pc + 4) (length v.code))) [
  | inl fits ↦ rw fits (returns (Frame-refl v))
  | inr cut ↦ rw cut raises
]

module _ {B : Type 0} where
  weaken :
      (P : Vm → B → Type 0) (u w : Vm) {r : Fallible B}
      → ((b : B) → P w b → P u b)
      → Post (P w) r
      → Post (P u) r
  weaken P u w h (returns {a = b} q) = returns (h b q)
  weaken P u w h raises = raises

-- The rules for a bind: behind a call that keeps the frame, and behind one that has no machine.
pub after :
    {A : Type 0} (v : Vm) {r : Fallible (A × Vm)} {k : A × Vm → Fallible Vm}
    → KeepsWith v r
    → ((x : A × Vm) → Keeps x.1 (k x))
    → Keeps v (r >>= k)
after v h step =
    Post-bind h λ x p. weaken (λ u w. Frame u w) v x.1 (λ w q. Frame-trans v x.1 w p q) (step x)

pub after_with :
    {A B : Type 0} (v : Vm) {r : Fallible (A × Vm)} {k : A × Vm → Fallible (B × Vm)}
    → KeepsWith v r
    → ((x : A × Vm) → KeepsWith x.1 (k x))
    → KeepsWith v (r >>= k)
after_with v h step =
    Post-bind h λ x p. weaken (λ u y. Frame u y.1) v x.1 (λ y q. Frame-trans v x.1 y.1 p q) (step x)

pub after_value :
    {A : Type 0} {P : Vm → Type 0} (r : Fallible A) {k : A → Fallible Vm}
    → ((a : A) → Post P (k a))
    → Post P (r >>= k)
after_value r step = Post-bind (any_result r) λ a _. step a

pub after_value_with :
    {A B : Type 0} {P : B × Vm → Type 0} (r : Fallible A) {k : A → Fallible (B × Vm)}
    → ((a : A) → Post P (k a))
    → Post P (r >>= k)
after_value_with r step = Post-bind (any_result r) λ a _. step a

-- The last push of an instruction, on a machine that kept the frame.
pub push-Keeps : (x : Value) (v w : Vm) → Frame v w → Keeps v (ok (push x w))
push-Keeps x v w h = returns (Frame-trans v w (push x w) h (push-Frame x w))

pub done : (v w : Vm) → Frame v w → Keeps v (ok w)
done v w h = returns h
