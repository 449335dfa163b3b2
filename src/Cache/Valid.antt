-- ===== src/Cache/Valid.antt =====
-- pkg/cache/cache.go: the map and the list of the cache agree, and its counts are right. Every
-- method keeps this.
use glyphlang.Prelude.{
  ℕ, suc, ◌≤◌, ◌<◌, ◌≡◌, List, ◌∷◌, some, none, ◌==◌, ==_iff, length, arith, Bool-cases,
  Option-cases, inl, inr,
}
use glyphlang.Prelude.Maps.{
  Str, str_eq, str_eq→eq, str_eq_refl, lookup, insert, delete, lookup-insert, lookup-delete,
}
use glyphlang.Cache.Entry.{
  Entry, entry_of, remove, to_front, total_size, AreDistinct, entry_of-remove, remove-AreDistinct,
}
use glyphlang.Cache.Keys.{HasUniqueKeys, insert-HasUniqueKeys, delete-HasUniqueKeys}
use glyphlang.Cache.Lru.{LruCache}

module _ {J : Type 0} where
  -- The map and the list agree, and the map has each key once.
  pub record Agree (items : List (Str × ℕ)) (l : List (ℕ × Entry J)) (fresh : ℕ) : Type 0 where
    pub listed :
        (key : Str) (i : ℕ)
        → lookup key items ≡ some i
        → (e : Entry J) × (entry_of i l ≡ some e) × (e.key ≡ key)
    pub indexed : (i : ℕ) (e : Entry J) → entry_of i l ≡ some e → lookup e.key items ≡ some i
    pub distinct : AreDistinct l
    pub unique : HasUniqueKeys items
    pub below : (i : ℕ) (e : Entry J) → entry_of i l ≡ some e → i < fresh

  -- The invariant: besides, the size and the number of entries are right, and the capacity holds.
  pub record IsValid (c : LruCache J) : Type 0 where
    pub agree : Agree c.items c.evict_list c.next_element
    pub sized : c.current_size ≡ total_size c.evict_list
    pub counted : c.stats.entry_count ≡ length c.evict_list
    pub bounded : length c.evict_list ≤ c.capacity

  module _ {items : List (Str × ℕ)} {l : List (ℕ × Entry J)} {fresh : ℕ}
      (a : Agree items l fresh) where
    -- Taking an element out of both.
    remove-listed :
        (i : ℕ) (e : Entry J)
        → entry_of i l ≡ some e
        → (key : Str) (j : ℕ) → lookup key (delete e.key items) ≡ some j
        → (x : Entry J) × (entry_of j (remove i l) ≡ some x) × (x.key ≡ key)
    remove-listed i e here key j h =
        let (x, hx, hk) = a.listed key j (ground (arith, lookup-delete e.key key items)) in
        (
          x,
          ground (arith, entry_of-remove i j l, lookup-delete e.key key items, str_eq_refl key),
          hk,
        )

    pub remove-Agree :
        (i : ℕ) (e : Entry J)
        → entry_of i l ≡ some e
        → Agree (delete e.key items) (remove i l) fresh
    remove-Agree i e here = record {
      listed = remove-listed i e here;
      indexed = λ j x h. ground (
        arith,
        entry_of-remove i j l,
        a.indexed j x,
        a.indexed i e here,
        lookup-delete e.key x.key items,
        str_eq→eq e.key x.key,
      );
      distinct = remove-AreDistinct i l a.distinct;
      unique = delete-HasUniqueKeys e.key items a.unique;
      below = λ j x h. a.below j x (ground (arith, entry_of-remove i j l));
    }

    fresh_absent : entry_of fresh l ≡ none
    fresh_absent = elim (Option-cases (entry_of fresh l)) [
      | inl absent ↦ absent
      | inr (x, there) ↦ absurd (omega (arith, a.below fresh x there))
    ]

    -- A new element for a key that has none.
    push-listed :
        (e : Entry J) (key : Str) (j : ℕ)
        → lookup key (insert e.key fresh items) ≡ some j
        → (x : Entry J) × (entry_of j ((fresh, e) ∷ l) ≡ some x) × (x.key ≡ key)
    unfolding entry_of
    push-listed e key j h = elim (Bool-cases (str_eq e.key key)) [
      | inl same ↦
          (e, ground (arith, lookup-insert e.key key fresh items), str_eq→eq e.key key same)
      | inr apart ↦
          let (x, hx, hk) = a.listed key j (ground (arith, lookup-insert e.key key fresh items)) in
          (x, ground (arith, a.below j x hx), hk)
    ]

    pub push-Agree :
        (e : Entry J)
        → lookup e.key items ≡ none
        → Agree (insert e.key fresh items) ((fresh, e) ∷ l) (suc fresh)
    unfolding entry_of AreDistinct
    push-Agree e absent = record {
      listed = push-listed e;
      indexed = λ j x h. ground (
        arith,
        a.indexed j x,
        lookup-insert e.key x.key fresh items,
        str_eq→eq e.key x.key,
        str_eq_refl e.key,
      );
      distinct = (fresh_absent, a.distinct);
      unique = insert-HasUniqueKeys e.key fresh items a.unique;
      below = λ j x h. ground (arith, a.below j x);
    }

    -- Another entry for the same key in its element, which goes to the front.
    front-listed :
        (i : ℕ) (old e : Entry J)
        → entry_of i l ≡ some old
        → old.key ≡ e.key
        → (key : Str) (j : ℕ) → lookup key items ≡ some j
        → (x : Entry J) × (entry_of j (to_front i e l) ≡ some x) × (x.key ≡ key)
    unfolding entry_of to_front
    front-listed i old e here same key j h =
        let (x, hx, hk) = a.listed key j h in
        elim (Bool-cases (i == j)) [
          | inl at_i ↦ (e, ground arith, ground (arith, (==_iff i j).0 at_i))
          | inr apart ↦ (x, ground (arith, entry_of-remove i j l), hk)
        ]

    pub front-Agree :
        (i : ℕ) (old e : Entry J)
        → entry_of i l ≡ some old
        → old.key ≡ e.key
        → Agree items (to_front i e l) fresh
    unfolding entry_of to_front AreDistinct
    front-Agree i old e here same = record {
      listed = front-listed i old e here same;
      indexed = λ j x h. ground (arith, entry_of-remove i j l, a.indexed j x, a.indexed i old here);
      distinct = (ground (arith, entry_of-remove i i l), remove-AreDistinct i l a.distinct);
      unique = a.unique;
      below = λ j x h. ground (arith, entry_of-remove i j l, a.below j x, a.below i old here);
    }
