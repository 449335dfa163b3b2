-- ===== src/Compiler/Correct/Patches.antt =====
-- Jumps that are patched: between two pieces of code, of an if and of a while statement.
use glyphlang.Prelude.{
  ℕ, ◌+◌, ◌≡◌, refl, sym, ◌∙◌, ap, subst, List, [], ◌++◌, append_assoc, append-nil, arith, length,
  length-append,
}
use glyphlang.Vm.Opcode.{Opcode, op_jump, op_jump_if_false}
use glyphlang.Compiler.Expression.{to_u32}
use glyphlang.Compiler.Control.{patch_code}
use glyphlang.Compiler.Correct.Code.{with_operand}
use glyphlang.Compiler.Correct.Parts.{length-with_operand}
use glyphlang.Compiler.Correct.Pieces.{
  Pieces, Pieces-fixed, Pieces-seq, Pieces-moved, Pieces-close, patch_all, patch_code-with_operand,
}

module _ (m : List ℕ) {n : List ℕ} {cs : ℕ → List ℕ} {js : List ℕ} (op : Opcode) (t : ℕ) where
  -- What a patch of the instruction between two pieces gives.
  patch_between :
      (i : ℕ)
      → i ≡ length m
      → Pieces (m ++ with_operand op 0) n cs js
      → patch_code i t n ≡ (m ++ with_operand op (to_u32 t)) ++ cs 0
  patch_between i e b =
      ap (patch_code i t) (b.code ∙ append_assoc m (with_operand op 0) (cs 0))
      ∙ patch_code-with_operand m op 0 t (cs 0) i e
      ∙ sym (append_assoc m (with_operand op (to_u32 t)) (cs 0))

  -- A jump between two pieces is patched.
  Pieces-hole :
      {l : List ℕ} {bs : ℕ → List ℕ} {is : List ℕ} (i : ℕ)
      → i ≡ length m
      → Pieces l m bs is
      → Pieces (m ++ with_operand op 0) n cs js
      → Pieces l (patch_code i t n) (λ k. bs k ++ (with_operand op (to_u32 t) ++ cs k)) (is ++ js)
  Pieces-hole {l} {bs} {is} i e a b =
      let mid = m ++ with_operand op (to_u32 t) in
      let same : length mid ≡ length (m ++ with_operand op 0) =
        length-append m (with_operand op (to_u32 t))
        ∙ ap (λ (k : ℕ). length m + k)
            (length-with_operand op (to_u32 t) ∙ sym (length-with_operand op 0))
        ∙ sym (length-append m (with_operand op 0)) in
      subst (λ k. Pieces l k (λ u. bs u ++ (with_operand op (to_u32 t) ++ cs u)) (is ++ js))
        (sym (patch_between i e b))
        (Pieces-seq a (
          Pieces-seq (Pieces-fixed m mid (with_operand op (to_u32 t)) refl)
            (Pieces-moved mid b same)))

  -- A patch leaves what is appended afterwards alone.
  patch_code-append :
      (i : ℕ) (post : List ℕ)
      → i ≡ length m
      → Pieces (m ++ with_operand op 0) n cs js
      → patch_code i t (n ++ post) ≡ patch_code i t n ++ post
  patch_code-append i post e b =
      ap (λ (k : List ℕ). patch_code i t (k ++ post))
        (b.code ∙ append_assoc m (with_operand op 0) (cs 0))
      ∙ ap (patch_code i t) (
          append_assoc m (with_operand op 0 ++ cs 0) post
          ∙ ap (λ (k : List ℕ). m ++ k) (append_assoc (with_operand op 0) (cs 0) post))
      ∙ patch_code-with_operand m op 0 t (cs 0 ++ post) i e
      ∙ sym (ap (λ (k : List ℕ). m ++ k) (append_assoc (with_operand op (to_u32 t)) (cs 0) post))
      ∙ sym (append_assoc m (with_operand op (to_u32 t) ++ cs 0) post)
      ∙ ap (λ (k : List ℕ). k ++ post)
          (sym (append_assoc m (with_operand op (to_u32 t)) (cs 0)) ∙ sym (patch_between i e b))

  length-patch_code :
      (i : ℕ)
      → i ≡ length m
      → Pieces (m ++ with_operand op 0) n cs js
      → length (patch_code i t n) ≡ length n
  length-patch_code i e b = omega (
    arith,
    ap length (patch_between i e b),
    ap length b.code,
    length-append (m ++ with_operand op (to_u32 t)) (cs 0),
    length-append (m ++ with_operand op 0) (cs 0),
    length-append m (with_operand op (to_u32 t)),
    length-append m (with_operand op 0),
    length-with_operand op (to_u32 t),
    length-with_operand op 0,
  )

-- The lists of code on the way through compileIfStatement: after the condition `a`, the then block
-- `b` and the else block `d`.
pub Pieces-if :
    (l a b d xs : List ℕ) {ys zs : ℕ → List ℕ} {is js : List ℕ}
    → a ≡ l ++ xs
    → Pieces (a ++ with_operand op_jump_if_false 0) b ys is
    → (else_at : ℕ) → Pieces (patch_code (length a) else_at (b ++ with_operand op_jump 0)) d zs js
    → (end_at : ℕ)
    → Pieces l
        (patch_code (length b) end_at d)
        (λ t.
          (xs ++ (with_operand op_jump_if_false (to_u32 else_at) ++ ys t))
          ++ (with_operand op_jump (to_u32 end_at) ++ zs t))
        (is ++ js)
Pieces-if l a b d xs {ys} {zs} {is} {js} e then_part else_at else_part end_at =
    Pieces-hole (patch_code (length a) else_at b) op_jump end_at (length b)
      (sym (length-patch_code a op_jump_if_false else_at (length a) refl then_part))
      (Pieces-hole a op_jump_if_false else_at (length a) refl (Pieces-fixed l a xs e) then_part)
      (subst (λ k. Pieces k d zs js)
        (patch_code-append a op_jump_if_false else_at (length a) (with_operand op_jump 0) refl
          then_part)
        else_part)

-- The patches of compileIfStatement change no length.
pub if_lengths :
    (a b d : List ℕ) {ys zs : ℕ → List ℕ} {is js : List ℕ}
    → Pieces (a ++ with_operand op_jump_if_false 0) b ys is
    → (else_at : ℕ) → Pieces (patch_code (length a) else_at (b ++ with_operand op_jump 0)) d zs js
    → (end_at : ℕ)
    → (length (patch_code (length a) else_at (b ++ with_operand op_jump 0)) ≡ length b + 5)
      × (length (patch_code (length b) end_at d) ≡ length d)
if_lengths a b d {ys} {zs} {is} {js} then_part else_at else_part end_at =
    let b' = patch_code (length a) else_at b in
    let same : length b' ≡ length b =
      length-patch_code a op_jump_if_false else_at (length a) refl then_part in
    let split =
      patch_code-append a op_jump_if_false else_at (length a) (with_operand op_jump 0) refl
        then_part in
    (
      omega (
        arith,
        ap length split,
        length-append b' (with_operand op_jump 0),
        length-with_operand op_jump 0,
        same,
      ),
      length-patch_code b' op_jump end_at (length b) (sym same)
          (subst (λ k. Pieces k d zs js) split else_part),
    )

-- The lists of code on the way through compileWhileStatement: after the condition `a` and the body
-- `b`.
pub Pieces-while :
    (l a b xs : List ℕ) {ys : ℕ → List ℕ} {js : List ℕ}
    → a ≡ l ++ xs
    → Pieces (a ++ with_operand op_jump_if_false 0) b ys js
    → (top end_at : ℕ)
    → Pieces l
        (patch_all js end_at (patch_code (length a) end_at (b ++ with_operand op_jump top)))
        (λ _.
          xs
          ++ (with_operand op_jump_if_false (to_u32 end_at)
              ++ (ys end_at ++ with_operand op_jump top)))
        []
Pieces-while l a b xs {ys} {js} e body top end_at =
    let back = Pieces-fixed b (b ++ with_operand op_jump top) (with_operand op_jump top) refl in
    let round : Pieces (a ++ with_operand op_jump_if_false 0) (b ++ with_operand op_jump top)
        (λ t. ys t ++ with_operand op_jump top) js =
      subst
        (λ k.
          Pieces (a ++ with_operand op_jump_if_false 0) (b ++ with_operand op_jump top)
            (λ t. ys t ++ with_operand op_jump top) k)
        (append-nil js) (Pieces-seq body back) in
    Pieces-close end_at
      (Pieces-hole a op_jump_if_false end_at (length a) refl (Pieces-fixed l a xs e) round)

pub while_size :
    (xs ys : List ℕ) (m n : ℕ)
    → length (xs ++ (with_operand op_jump_if_false m ++ (ys ++ with_operand op_jump n)))
      ≡ length xs + 5 + length ys + 5
while_size xs ys m n =
    let rest = ys ++ with_operand op_jump n in
    omega (
      arith,
      length-append {0} xs (with_operand op_jump_if_false m ++ rest),
      length-append {0} (with_operand op_jump_if_false m) rest,
      length-append {0} ys (with_operand op_jump n),
      length-with_operand op_jump_if_false m,
      length-with_operand op_jump n,
    )
