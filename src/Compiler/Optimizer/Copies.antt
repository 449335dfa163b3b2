-- ===== src/Compiler/Optimizer/Copies.antt =====
-- pkg/compiler/optimizer.go: chains of copies, and what the optimizer knows of the variables.
use glyphlang.Prelude.{
  ℕ, zero, suc, ◌+◌, ◌≤◌, ◌<◌, ◌≡◌, refl, ◌∙◌, sym, inl, inr, false, List, [], ◌∷◌, some, ok, arith,
  if◌then◌else◌, length, Bool-cases, Option-cases,
}
use glyphlang.Prelude.Maps.{Str, str_eq→eq, str_eq_refl, lookup}
use glyphlang.Vm.Value.{Fields}
use glyphlang.Vm.Control.{variable_value}
use glyphlang.Eval.{literal_meaning}
use glyphlang.Ast.{Literal}
use glyphlang.Compiler.Optimizer.{Optimizer, contains, follow, root_variable}

-- How many entries have a name that has not been visited.
unvisited : List (Str × Str) → List Str → ℕ
unvisited [] visited = 0
unvisited ((name, target) ∷ rest) visited =
    if contains name visited then unvisited rest visited else suc (unvisited rest visited)

unvisited-le :
    (copies : List (Str × Str)) (visited : List Str) → unvisited copies visited ≤ length copies
unfolding unvisited
unvisited-le [] visited = omega arith
unvisited-le ((name, target) ∷ rest) visited = ground (arith, unvisited-le rest visited)

unvisited_mono :
    (copies : List (Str × Str)) (visited : List Str) (name : Str)
    → unvisited copies (name ∷ visited) ≤ unvisited copies visited
unfolding unvisited contains
unvisited_mono [] visited name = omega arith
unvisited_mono ((k, target) ∷ rest) visited name = ground (arith, unvisited_mono rest visited name)

-- Visiting the name of an entry leaves fewer.
unvisited-visit :
    (copies : List (Str × Str)) (visited : List Str) (name : Str) {target : Str}
    → lookup name copies ≡ some target
    → contains name visited ≡ false
    → unvisited copies (name ∷ visited) < unvisited copies visited
unfolding unvisited contains lookup
unvisited-visit [] visited name found new = cc
unvisited-visit ((k, to) ∷ rest) visited name {target = target} found new = ground (
  arith,
  unvisited_mono rest visited name,
  unvisited-visit rest visited name {target = target},
  str_eq→eq k name,
  str_eq→eq name k,
  str_eq_refl name,
)

-- Any two amounts of fuel that are above the number of unvisited entries give the same root.
follow-enough :
    (f g : ℕ) (copies : List (Str × Str)) (visited : List Str) (name : Str)
    → unvisited copies visited < f
    → unvisited copies visited < g
    → follow f copies visited name ≡ follow g copies visited name
unfolding follow
follow-enough zero g copies visited name hf hg = elim hf [ ]
follow-enough (suc f) zero copies visited name hf hg = elim hg [ ]
follow-enough (suc f) (suc g) copies visited name hf hg =
    elim (Bool-cases (contains name visited)) [
      | inl met ↦ rw (met, follow)
      | inr new ↦ elim (Option-cases (lookup name copies)) [
        | inl last ↦ rw (new, last, follow)
        | inr (target, found) ↦
            rw (new, found, follow)
              (follow-enough f g copies (name ∷ visited) target
                (omega (arith, unvisited-visit copies visited name found new))
                (omega (arith, unvisited-visit copies visited name found new)))
      ]
    ]

-- The loop that follows a chain of copies ends within one round more than there are copies: with
-- more fuel it gives the same variable.
pub root_variable-enough :
    (o : Optimizer) (name : Str) (extra : ℕ)
    → follow (suc (length o.copies) + extra) o.copies [] name ≡ root_variable o name
unfolding root_variable
root_variable-enough o name extra =
    follow-enough (suc (length o.copies) + extra) (suc (length o.copies)) o.copies [] name
      (omega (arith, unvisited-le o.copies [])) (omega (arith, unvisited-le o.copies []))

-- What the optimizer believes is true of the variables.
pub record Agrees (locals globals : Fields) (o : Optimizer) : Type 0 where
  pub constant :
      (name : Str) (lit : Literal)
      → lookup name o.constants ≡ some lit
      → variable_value locals globals name ≡ ok (literal_meaning lit)
  pub copy :
      (name target : Str)
      → lookup name o.copies ≡ some target
      → variable_value locals globals name ≡ variable_value locals globals target

module _ (locals globals : Fields) (o : Optimizer) (agrees : Agrees locals globals o) where
  follow-value :
      (fuel : ℕ) (visited : List Str) (name : Str)
      → variable_value locals globals (follow fuel o.copies visited name)
        ≡ variable_value locals globals name
  unfolding follow
  follow-value zero visited name = refl
  follow-value (suc fuel) visited name = elim (Bool-cases (contains name visited)) [
    | inl met ↦ rw (met, follow)
    | inr new ↦ elim (Option-cases (lookup name o.copies)) [
      | inl last ↦ rw (new, last, follow)
      | inr (target, found) ↦
          rw (new, found, follow)
            (follow-value fuel (name ∷ visited) target ∙ sym (agrees.copy name target found))
    ]
  ]

  pub root_variable-value :
      (name : Str)
      → variable_value locals globals (root_variable o name) ≡ variable_value locals globals name
  unfolding root_variable
  root_variable-value name = follow-value (suc (length o.copies)) [] name
