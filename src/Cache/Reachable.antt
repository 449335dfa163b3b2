-- ===== src/Cache/Reachable.antt =====
-- pkg/cache/cache.go: removing several elements, and the caches that the methods reach.
use glyphlang.Prelude.{
  ℕ, ◌≡◌, refl, subst, Bool, List, [], ◌∷◌, Option, some, none, arith, Bool-cases, Option-cases,
  inl, inr,
}
use glyphlang.Prelude.Maps.{Str, lookup}
use glyphlang.Cache.Entry.{
  CacheValue, Duration, Entry, entry_of, total_size, AreDistinct, entry_of-remove,
}
use glyphlang.Cache.Lru.{
  LruCache, find_element, remove_element, get, delete_key, select, remove_all, set_key,
  set_with_tags, ranged, delete_by_tag, cleanup, clear, new_cache, new_entry, put_entry,
}
use glyphlang.Cache.Keys.{HasUniqueKeys}
use glyphlang.Cache.Ranging.{range-AreDistinct, ranged-entry_of}
use glyphlang.Cache.Valid.{IsValid}
use glyphlang.Cache.Preserved.{find_element-found, remove_element-IsValid}
use glyphlang.Cache.Methods.{put_entry-IsValid, get-IsValid, count_set-IsValid}

module _ {J : Type 0} where
  delete_key-IsValid : (key : Str) {c : LruCache J} → IsValid c → IsValid (delete_key key c)
  unfolding delete_key
  delete_key-IsValid key {c} v = elim (Option-cases (find_element key c)) [
    | inl absent ↦ rw (absent, delete_key) v
    | inr ((i, e), found) ↦
        let w = remove_element-IsValid v i e (find_element-found v key found).1 in
        rw (found, delete_key)
          (record { agree = w.agree; sized = w.sized; counted = w.counted; bounded = w.bounded })
  ]

  -- Each of the elements stands in the list.
  abbrev AreIn : List (ℕ × Entry J) → List (ℕ × Entry J) → Type 0
  AreIn chosen l = (i : ℕ) (e : Entry J) → entry_of i chosen ≡ some e → entry_of i l ≡ some e

  remove_all-IsValid :
      (chosen : List (ℕ × Entry J)) {c : LruCache J}
      → IsValid c
      → AreDistinct chosen
      → AreIn chosen c.evict_list
      → IsValid (remove_all chosen c)
  unfolding remove_all AreDistinct remove_element entry_of
  remove_all-IsValid [] v d within = v
  remove_all-IsValid ((i, e) ∷ rest) {c} v d within =
      remove_all-IsValid rest (remove_element-IsValid v i e (within i e (ground arith))) d.1
        (λ j x h. ground (arith, within j x, entry_of-remove i j c.evict_list, d.0))

  select_absent :
      (test : Entry J → Bool) (i : ℕ) (l : List (ℕ × Entry J))
      → entry_of i l ≡ none
      → entry_of i (select test l) ≡ none
  unfolding select entry_of
  select_absent test i [] h = refl
  select_absent test i ((j, e) ∷ l) h = ground (arith, select_absent test i l)

  select-AreDistinct :
      (test : Entry J → Bool) (l : List (ℕ × Entry J)) → AreDistinct l → AreDistinct (select test l)
  unfolding select AreDistinct
  select-AreDistinct test [] d = tt
  select-AreDistinct test ((j, e) ∷ l) d = elim (Bool-cases (test e)) [
    | inl picked ↦ rw picked (select_absent test j l d.0, select-AreDistinct test l d.1)
    | inr passed ↦ rw passed (select-AreDistinct test l d.1)
  ]

  select-AreIn :
      (test : Entry J → Bool) (l : List (ℕ × Entry J)) → AreDistinct l → AreIn (select test l) l
  unfolding select AreDistinct entry_of
  select-AreIn test [] d i e h = h
  select-AreIn test ((j, x) ∷ l) d i e h =
      ground (arith, select-AreIn test l d.1 i e, select_absent test j l d.0, d.0)

  -- DeleteByTag and a tick of cleanup.
  remove_selected-IsValid :
      (test : Entry J → Bool) {c : LruCache J}
      → IsValid c
      → IsValid (remove_all (select test (ranged c.items c.evict_list)) c)
  remove_selected-IsValid test {c} v =
      let met = ranged c.items c.evict_list in
      let distinct = range-AreDistinct v in
      remove_all-IsValid (select test met) v (select-AreDistinct test met distinct)
        (λ i e h. ranged-entry_of c.items c.evict_list i e (select-AreIn test met distinct i e h))

  clear-IsValid : {c : LruCache J} → IsValid c → IsValid (clear c)
  unfolding clear entry_of HasUniqueKeys AreDistinct total_size lookup
  clear-IsValid v = record {
    agree = record {
      listed = λ key i h. cc;
      indexed = λ i e h. cc;
      distinct = tt;
      unique = tt;
      below = λ i e h. cc;
    };
    sized = refl;
    counted = refl;
    bounded = omega arith;
  }

  new_cache-IsValid :
      (capacity : ℕ) (ttl : Duration) (max_size : ℕ) (flag : Bool)
      → IsValid {J = J} (new_cache capacity ttl max_size flag)
  unfolding new_cache entry_of HasUniqueKeys AreDistinct total_size lookup
  new_cache-IsValid capacity ttl max_size flag = record {
    agree = record {
      listed = λ key i h. cc;
      indexed = λ i e h. cc;
      distinct = tt;
      unique = tt;
      below = λ i e h. cc;
    };
    sized = refl;
    counted = refl;
    bounded = omega arith;
  }

module _ {J : Type 0} (marshalled : J → Option ℕ) where
  -- One call of a method, or one tick of the cleanup, at any time.
  pub data Step (c : LruCache J) : LruCache J → Type 0 where
    got : (now : ℕ) (key : Str) → Step c (get now key c).1
    was_set :
        (fuel now : ℕ) (key : Str) (value : CacheValue J) (ttl : Duration) {c' : LruCache J}
        → set_key marshalled fuel now key value ttl c ≡ some c'
        → Step c c'
    was_set_with_tags :
        (fuel now : ℕ) (key : Str) (value : CacheValue J) (ttl : Duration) (tags : List Str)
        {c' : LruCache J}
        → set_with_tags marshalled fuel now key value ttl tags c ≡ some c'
        → Step c c'
    deleted : (key : Str) → Step c (delete_key key c)
    deleted_by_tag : (tag : Str) → Step c (delete_by_tag tag c).1
    cleaned : (now : ℕ) → Step c (cleanup now c)
    cleared : Step c (clear c)

  pub data Reaches : LruCache J → Type 0 where
    created :
        (capacity : ℕ) (ttl : Duration) (max_size : ℕ) (flag : Bool)
        → {c : LruCache J} → new_cache capacity ttl max_size flag ≡ c
        → Reaches c
    then_step : {c c' : LruCache J} → Reaches c → Step c c' → Reaches c'

  Step-IsValid : {c c' : LruCache J} → IsValid c → Step c c' → IsValid c'
  unfolding set_key set_with_tags delete_by_tag cleanup
  Step-IsValid v (got now key) = get-IsValid now key v
  Step-IsValid {c} v (was_set fuel now key value ttl e) =
      elim (Option-cases (put_entry fuel (new_entry marshalled now key value ttl [] c) c)) [
        | inl endless ↦ absurd (ground (arith, endless))
        | inr (d, put) ↦
            subst IsValid (ground (arith, put)) (count_set-IsValid (put_entry-IsValid fuel _ v put))
      ]
  Step-IsValid v (was_set_with_tags fuel now key value ttl tags e) = put_entry-IsValid fuel _ v e
  Step-IsValid v (deleted key) = delete_key-IsValid key v
  Step-IsValid v (deleted_by_tag tag) = remove_selected-IsValid _ v
  Step-IsValid v (cleaned now) = remove_selected-IsValid _ v
  Step-IsValid v cleared = clear-IsValid v

  -- In every cache that the methods reach, the map and the list hold the same elements under their
  -- keys, no key and no element twice, the size and the number of entries are those of the list, and there are
  -- at most as many entries as the capacity.
  pub Reaches-IsValid : {c : LruCache J} → Reaches c → IsValid c
  Reaches-IsValid (created capacity ttl max_size flag e) =
      subst IsValid e (new_cache-IsValid capacity ttl max_size flag)
  Reaches-IsValid (then_step r s) = Step-IsValid (Reaches-IsValid r) s
