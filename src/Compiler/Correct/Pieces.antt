-- ===== src/Compiler/Correct/Pieces.antt =====
-- Code with jumps that are not patched yet, as lists of bytes: what is appended, by the target of
-- the breaks in it, and where these are.
use glyphlang.Prelude.{
  ℕ, suc, ◌+◌, ◌≡◌, refl, sym, ◌∙◌, ap, List, [], ◌∷◌, ◌++◌, append_assoc, append-nil, arith,
  length, length-append, take, drop,
}
use glyphlang.Bytes.{put_u32}
use glyphlang.Vm.Opcode.{Opcode, opcode_byte, op_jump}
use glyphlang.Compiler.Expression.{to_u32}
use glyphlang.Compiler.Control.{patch_code}
use glyphlang.Compiler.Correct.Code.{with_operand}
use glyphlang.Compiler.Correct.Parts.{length-with_operand}

-- The patches of popLoop on the bytes.
abbrev pub patch_all : List ℕ → ℕ → List ℕ → List ℕ
patch_all [] t l = l
patch_all (j ∷ js) t l = patch_all js t (patch_code j t l)

patch_all-append :
    (is js : List ℕ) (t : ℕ) (l : List ℕ)
    → patch_all (is ++ js) t l ≡ patch_all js t (patch_all is t l)
patch_all-append [] js t l = refl
patch_all-append (i ∷ is) js t l = patch_all-append is js t (patch_code i t l)

take_past :
    (xs : List ℕ) (b : ℕ) (ys : List ℕ) → take (suc (length xs)) (xs ++ b ∷ ys) ≡ xs ++ b ∷ []
take_past [] b ys = refl
take_past (x ∷ xs) b ys = ap (◌∷◌ x) (take_past xs b ys)

drop_past : (xs ys : List ℕ) (n : ℕ) → drop (length xs + n) (xs ++ ys) ≡ drop n ys
drop_past [] ys n = ap (λ (k : ℕ). drop k ys) (omega arith)
drop_past (x ∷ xs) ys n =
    let e : suc (length xs) + n ≡ suc (length xs + n) = omega arith in
    ap (λ (k : ℕ). drop k (x ∷ (xs ++ ys))) e ∙ drop_past xs ys n

-- A patch replaces the operand of the instruction at its place.
pub patch_code-with_operand :
    (pre : List ℕ) (op : Opcode) (n t : ℕ) (post : List ℕ) (i : ℕ)
    → i ≡ length pre
    → patch_code i t (pre ++ (with_operand op n ++ post))
      ≡ pre ++ (with_operand op (to_u32 t) ++ post)
unfolding patch_code put_u32
patch_code-with_operand pre op n t post i e =
    ap (λ (k : ℕ). patch_code k t (pre ++ (with_operand op n ++ post))) e
    ∙ ap
        (λ (l : List ℕ).
          l ++ (put_u32 (to_u32 t) ++ drop (length pre + 5) (pre ++ (with_operand op n ++ post))))
        (take_past pre (opcode_byte op) (put_u32 n ++ post))
    ∙ ap (λ (l : List ℕ). (pre ++ opcode_byte op ∷ []) ++ (put_u32 (to_u32 t) ++ l))
        (drop_past pre (with_operand op n ++ post) 5)
    ∙ append_assoc pre (opcode_byte op ∷ []) (put_u32 (to_u32 t) ++ post)

-- From `l` to `l'` the bytes for the target 0 of breaks were appended; patching the jumps makes
-- them the bytes for another target, whatever stands around them.
pub record Pieces (l l' : List ℕ) (bytes : ℕ → List ℕ) (jumps : List ℕ) : Type 0 where
  pub size : (t : ℕ) → length (bytes t) ≡ length (bytes 0)
  pub code : l' ≡ l ++ bytes 0
  pub patched :
      (t : ℕ) (pre post : List ℕ)
      → length pre ≡ length l
      → patch_all jumps t (pre ++ (bytes 0 ++ post)) ≡ pre ++ (bytes t ++ post)

-- Code without a break.
pub Pieces-fixed : (l l' xs : List ℕ) → l' ≡ l ++ xs → Pieces l l' (λ t. xs) []
Pieces-fixed l l' xs e = record { size = λ t. refl; code = e; patched = λ t pre post p. refl }

pub Pieces-break :
    (l : List ℕ)
    → Pieces l (l ++ with_operand op_jump 0) (λ t. with_operand op_jump (to_u32 t)) (length l ∷ [])
Pieces-break l = record {
  size = λ t. length-with_operand op_jump (to_u32 t) ∙ sym (length-with_operand op_jump 0);
  code = refl;
  patched = λ t pre post p. patch_code-with_operand pre op_jump 0 t post (length l) (sym p);
}

module _ {l m n : List ℕ} {bs cs : ℕ → List ℕ} {is js : List ℕ} where
  pub Pieces-seq : Pieces l m bs is → Pieces m n cs js → Pieces l n (λ t. bs t ++ cs t) (is ++ js)
  Pieces-seq a b = record {
    size = λ t.
        length-append (bs t) (cs t)
        ∙ ap (λ (k : ℕ). k + length (cs t)) (a.size t)
        ∙ ap (λ (k : ℕ). length (bs 0) + k) (b.size t)
        ∙ sym (length-append (bs 0) (cs 0));
    code = b.code ∙ ap (λ (k : List ℕ). k ++ cs 0) a.code ∙ append_assoc l (bs 0) (cs 0);
    patched = λ t pre post p.
        let same : length (pre ++ bs t) ≡ length m =
          length-append pre (bs t)
          ∙ ap (λ (k : ℕ). k + length (bs t)) p
          ∙ ap (λ (k : ℕ). length l + k) (a.size t)
          ∙ sym (ap length a.code ∙ length-append l (bs 0)) in
        patch_all-append is js t (pre ++ ((bs 0 ++ cs 0) ++ post))
        ∙ ap (λ (k : List ℕ). patch_all js t (patch_all is t (pre ++ k)))
            (append_assoc (bs 0) (cs 0) post)
        ∙ ap (patch_all js t) (a.patched t pre (cs 0 ++ post) p)
        ∙ ap (patch_all js t) (sym (append_assoc pre (bs t) (cs 0 ++ post)))
        ∙ b.patched t (pre ++ bs t) post same
        ∙ append_assoc pre (bs t) (cs t ++ post)
        ∙ ap (λ (k : List ℕ). pre ++ k) (sym (append_assoc (bs t) (cs t) post));
  }

-- The bytes before a piece do not matter, only how many they are.
pub Pieces-moved :
    {l m : List ℕ} {bs : ℕ → List ℕ} {is : List ℕ} (l' : List ℕ)
    → Pieces l m bs is
    → length l' ≡ length l
    → Pieces l' (l' ++ bs 0) bs is
Pieces-moved l' a e = record {
  size = a.size;
  code = refl;
  patched = λ t pre post p. a.patched t pre post (p ∙ e);
}

-- The jumps of the breaks are patched.
pub Pieces-close :
    {l m : List ℕ} {bs : ℕ → List ℕ} {is : List ℕ} (t : ℕ)
    → Pieces l m bs is
    → Pieces l (patch_all is t m) (λ _. bs t) []
Pieces-close {l} {m} {bs} {is} t a = Pieces-fixed l (patch_all is t m) (bs t) (
    ap (patch_all is t) (a.code ∙ ap (λ (k : List ℕ). l ++ k) (sym (append-nil (bs 0))))
    ∙ a.patched t l [] refl
    ∙ ap (λ (k : List ℕ). l ++ k) (append-nil (bs t)))
