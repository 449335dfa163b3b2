-- ===== src/Compiler/Container/Adjusting.antt =====
-- What adjustJumpTargets makes of the instructions of a code, one after another.
use glyphlang.Prelude.{
  ℕ, zero, suc, ◌+◌, ◌%◌, ◌^◌, ◌≤◌, ◌<◌, ◌≡◌, refl, ◌∙◌, ap, true, false, List, [], ◌∷◌, ◌++◌,
  arith, leb, le→leb, leb→le, length, length-drop, length-append, length-take, drop, take,
  Bool-cases, inl, inr,
}
use glyphlang.Bytes.{put_u32, u32, u32-put_u32}
use glyphlang.Compiler.Container.{is_jump, has_operand, adjust_from, adjust_jump_targets}

-- More fuel than there are bytes changes nothing.
adjust_from-fuel :
    (n m header : ℕ) (code : List ℕ)
    → length code ≤ n
    → length code ≤ m
    → adjust_from n header code ≡ adjust_from m header code
unfolding adjust_from
adjust_from-fuel zero zero header code p q = refl
adjust_from-fuel zero (suc m) header [] p q = refl
adjust_from-fuel zero (suc m) header (b ∷ bs) p q = absurd (omega arith)
adjust_from-fuel (suc n) zero header [] p q = refl
adjust_from-fuel (suc n) zero header (b ∷ bs) p q = absurd (omega arith)
adjust_from-fuel (suc n) (suc m) header [] p q = refl
adjust_from-fuel (suc n) (suc m) header (b ∷ bs) p q = ground (
  arith,
  length-drop {0} 4 bs,
  adjust_from-fuel n m header (drop 4 bs),
  adjust_from-fuel n m header bs,
)

module _ (header : ℕ) where
  pub adjust-plain :
      (b : ℕ) (rest : List ℕ)
      → is_jump b ≡ false
      → has_operand b ≡ false
      → adjust_jump_targets header (b ∷ rest) ≡ b ∷ adjust_jump_targets header rest
  unfolding adjust_jump_targets adjust_from
  adjust-plain b rest p q = rw (p, adjust_jump_targets, adjust_from) (rw (q, adjust_from) refl)

  pub adjust-operand :
      (b n : ℕ) (rest : List ℕ)
      → is_jump b ≡ false
      → has_operand b ≡ true
      → adjust_jump_targets header (b ∷ (put_u32 n ++ rest))
        ≡ b ∷ (put_u32 n ++ adjust_jump_targets header rest)
  unfolding adjust_jump_targets adjust_from put_u32
  adjust-operand b n rest p q =
      rw (p, adjust_jump_targets, adjust_from)
        (rw (q, adjust_from)
          (ap (λ (l : List ℕ). b ∷ (put_u32 n ++ l))
            (adjust_from-fuel (suc (suc (suc (suc (length rest))))) (length rest) header rest
              (omega arith) (omega arith))))

  pub adjust-jump :
      (b n : ℕ) (rest : List ℕ)
      → is_jump b ≡ true
      → n < 2 ^ 32
      → adjust_jump_targets header (b ∷ (put_u32 n ++ rest))
        ≡ b ∷ (put_u32 ((n + header) % 2 ^ 32) ++ adjust_jump_targets header rest)
  unfolding adjust_jump_targets adjust_from put_u32
  adjust-jump b n rest p small =
      let e : u32 (put_u32 n ++ rest) ≡ n = u32-put_u32 n rest small in
      let fits : leb 4 (suc (suc (suc (suc (length rest))))) ≡ true =
        le→leb 4 (suc (suc (suc (suc (length rest))))) (omega arith) in
      rw (p, adjust_jump_targets, adjust_from)
        (rw fits (
          ap
            (λ (k : ℕ).
              b
              ∷ (put_u32 ((k + header) % 2 ^ 32)
                  ++ adjust_from (suc (suc (suc (suc (length rest))))) header rest))
            e
          ∙ ap (λ (l : List ℕ). b ∷ (put_u32 ((n + header) % 2 ^ 32) ++ l))
              (adjust_from-fuel (suc (suc (suc (suc (length rest))))) (length rest) header rest
                (omega arith) (omega arith))))

length-adjust_from :
    (n header : ℕ) (code : List ℕ) → length (adjust_from n header code) ≡ length code
unfolding adjust_from put_u32
length-adjust_from zero header code = refl
length-adjust_from (suc n) header [] = refl
length-adjust_from (suc n) header (b ∷ rest) =
    let rec : length (adjust_from n header (drop 4 rest)) ≡ length (drop 4 rest) =
      length-adjust_from n header (drop 4 rest) in
    let put = put_u32 ((u32 rest + header) % 2 ^ 32) in
    elim (Bool-cases (is_jump b)) [
      | inl j ↦ elim (Bool-cases (leb 4 (length rest))) [
        | inl l ↦
            rw (j, adjust_from)
              (rw l (omega (arith, rec, length-drop 4 rest, leb→le 4 (length rest) l)))
        | inr l ↦ rw (j, adjust_from) (rw l refl)
      ]
      | inr j ↦ elim (Bool-cases (has_operand b)) [
        | inl o ↦
            rw (j, adjust_from)
              (rw (o, adjust_from)
                (omega (
                  arith,
                  rec,
                  length-append {0} (take 4 rest) (adjust_from n header (drop 4 rest)),
                  length-drop {0} 4 rest,
                  length-take {0} 4 rest,
                )))
        | inr o ↦
            rw (j, adjust_from)
              (rw (o, adjust_from) (omega (arith, length-adjust_from n header rest)))
      ]
    ]

-- The pass keeps the length of the code.
pub length-adjust_jump_targets :
    (header : ℕ) (code : List ℕ) → length (adjust_jump_targets header code) ≡ length code
unfolding adjust_jump_targets
length-adjust_jump_targets header code = length-adjust_from (length code) header code
