-- ===== src/Cache/Keys.antt =====
-- Maps of keys, as association lists without a key that stands twice.
use glyphlang.Prelude.{◌≡◌, refl, subst, List, [], ◌∷◌, none, arith, Bool-cases, inl, inr}
use glyphlang.Prelude.Maps.{
  Str, str_eq, str_eq→eq, str_eq_refl, lookup, insert, delete, lookup-insert, lookup-delete,
}

module _ {V : Type 0} where
  -- No key stands in the list twice.
  unfoldable pub HasUniqueKeys : List (Str × V) → Type 0
  HasUniqueKeys [] = Unit {0}
  HasUniqueKeys ((k, v) ∷ m) = (lookup k m ≡ none) × HasUniqueKeys m

  pub insert-HasUniqueKeys :
      (k : Str) (v : V) (m : List (Str × V)) → HasUniqueKeys m → HasUniqueKeys (insert k v m)
  unfolding HasUniqueKeys insert lookup
  insert-HasUniqueKeys k v [] u = (refl, tt)
  insert-HasUniqueKeys k v ((j, w) ∷ m) u = elim (Bool-cases (str_eq j k)) [
    | inl same ↦ rw same (subst (λ i. lookup i m ≡ none) (str_eq→eq j k same) u.0, u.1)
    | inr apart ↦ rw apart (
      ground (arith, lookup-insert k j v m, str_eq→eq k j, str_eq_refl j, u.0),
      insert-HasUniqueKeys k v m u.1,
    )
  ]

  pub delete-HasUniqueKeys :
      (k : Str) (m : List (Str × V)) → HasUniqueKeys m → HasUniqueKeys (delete k m)
  unfolding HasUniqueKeys delete
  delete-HasUniqueKeys k [] u = tt
  delete-HasUniqueKeys k ((j, w) ∷ m) u = elim (Bool-cases (str_eq j k)) [
    | inl same ↦ rw same (delete-HasUniqueKeys k m u.1)
    | inr apart ↦ rw apart (ground (arith, lookup-delete k j m, u.0), delete-HasUniqueKeys k m u.1)
  ]
