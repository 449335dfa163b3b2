-- ===== src/Cache/Ranging.antt =====
-- pkg/cache/cache.go: what a range over the map meets, each element once.
use glyphlang.Prelude.{
  ℕ, ◌≡◌, refl, sym, subst, List, [], ◌∷◌, some, none, ◌==◌, arith, Bool-cases, inl, inr,
}
use glyphlang.Prelude.Maps.{Str, str_eq→eq, str_eq_refl, lookup}
use glyphlang.Cache.Entry.{Entry, entry_of, AreDistinct}
use glyphlang.Cache.Keys.{HasUniqueKeys}
use glyphlang.Cache.Lru.{LruCache, ranged}
use glyphlang.Cache.Valid.{IsValid}

module _ {J : Type 0} where
  -- Each element of the map stands in the list, with the key that the map has for it.
  unfoldable AllNamed : List (Str × ℕ) → List (ℕ × Entry J) → Type 0
  AllNamed [] l = Unit {0}
  AllNamed ((key, i) ∷ items) l =
      ((e : Entry J) × (entry_of i l ≡ some e) × (e.key ≡ key)) × AllNamed items l

  listed-AllNamed :
      (items : List (Str × ℕ)) (l : List (ℕ × Entry J))
      → HasUniqueKeys items
      → ((key : Str) (i : ℕ)
          → lookup key items ≡ some i
          → (e : Entry J) × (entry_of i l ≡ some e) × (e.key ≡ key))
      → AllNamed items l
  unfolding AllNamed HasUniqueKeys lookup
  listed-AllNamed [] l u listed = tt
  listed-AllNamed ((k, i) ∷ items) l u listed = (
    listed k i (ground (arith, str_eq_refl k)),
    listed-AllNamed items l u.1 (λ key j h. listed key j (ground (arith, str_eq→eq k key, u.0, h))),
  )

  ranged_absent :
      (items : List (Str × ℕ)) (l : List (ℕ × Entry J))
      → AllNamed items l
      → (i : ℕ) (e : Entry J) → entry_of i l ≡ some e
      → lookup e.key items ≡ none
      → entry_of i (ranged items l) ≡ none
  unfolding AllNamed ranged entry_of lookup
  ranged_absent [] l named i e here absent = refl
  ranged_absent ((k, j) ∷ items) l ((x, there, same), named) i e here absent =
      elim (Bool-cases (j == i)) [
        | inl at_i ↦ absurd (ground (arith, there, here, same, absent, str_eq_refl k))
        | inr apart ↦
            rw (there, ranged, apart)
              (ranged_absent items l named i e here (ground (arith, absent)))
      ]

  ranged-AreDistinct :
      (items : List (Str × ℕ)) (l : List (ℕ × Entry J))
      → AllNamed items l
      → HasUniqueKeys items
      → AreDistinct (ranged items l)
  unfolding AllNamed ranged HasUniqueKeys AreDistinct
  ranged-AreDistinct [] l named u = tt
  ranged-AreDistinct ((k, j) ∷ items) l ((x, there, same), named) u =
      rw (there, ranged)
        (
          ranged_absent items l named j x there
              (subst (λ (key : Str). lookup key items ≡ none) (sym same) u.0),
          ranged-AreDistinct items l named u.1,
        )

  pub ranged-entry_of :
      (items : List (Str × ℕ)) (l : List (ℕ × Entry J)) (i : ℕ) (e : Entry J)
      → entry_of i (ranged items l) ≡ some e
      → entry_of i l ≡ some e
  unfolding ranged entry_of
  ranged-entry_of [] l i e h = cc
  ranged-entry_of ((k, j) ∷ items) l i e h = ground (arith, ranged-entry_of items l i e)

  pub range-AreDistinct : {c : LruCache J} → IsValid c → AreDistinct (ranged c.items c.evict_list)
  range-AreDistinct {c} v =
      ranged-AreDistinct c.items c.evict_list
        (listed-AllNamed c.items c.evict_list v.agree.unique v.agree.listed) v.agree.unique
