-- ===== src/Cache/Methods.antt =====
-- pkg/cache/cache.go: the methods of LRUCache as steps, and what is true of every cache that they
-- reach.
use glyphlang.Prelude.{
  ℕ, ◌<◌, ◌≡◌, refl, subst, false, some, none, length, arith, Bool-cases, Option-cases, inl, inr,
}
use glyphlang.Prelude.Maps.{Str, lookup}
use glyphlang.Cache.Entry.{
  Entry, is_expired, entry_of, to_front, total_size, total_size-remove, length-remove,
}
use glyphlang.Cache.Lru.{
  LruCache, find_element, is_over, make_room, get, hit, miss, put_entry, store_existing, push_front,
  count_set,
}
use glyphlang.Cache.Valid.{IsValid, push-Agree, front-Agree}
use glyphlang.Cache.Preserved.{
  find_element-found, find_element-absent, remove_element-IsValid, make_room-IsValid,
}

module _ {J : Type 0} where
  -- An entry for the same key, in the element of the old one.
  store_existing-IsValid :
      {c : LruCache J}
      → IsValid c
      → (i : ℕ) (old e : Entry J) → entry_of i c.evict_list ≡ some old
      → old.key ≡ e.key
      → IsValid (store_existing i old e c)
  unfolding store_existing to_front total_size
  store_existing-IsValid {c} v i old e here same = record {
    agree = unfold to_front in front-Agree v.agree i old e here same;
    sized = omega (arith, v.sized, total_size-remove i c.evict_list v.agree.distinct here);
    counted = omega (arith, v.counted, length-remove i c.evict_list v.agree.distinct here);
    bounded = omega (arith, v.bounded, length-remove i c.evict_list v.agree.distinct here);
  }

  push_front-IsValid :
      {c : LruCache J}
      → IsValid c
      → (e : Entry J) → lookup e.key c.items ≡ none
      → length c.evict_list < c.capacity
      → IsValid (push_front e c)
  unfolding push_front total_size
  push_front-IsValid {c} v e absent room = record {
    agree = push-Agree v.agree e absent;
    sized = omega (arith, v.sized);
    counted = omega (arith, v.counted);
    bounded = omega arith;
  }

  hit-IsValid :
      {c : LruCache J}
      → IsValid c
      → (now i : ℕ) (e : Entry J) → entry_of i c.evict_list ≡ some e
      → IsValid (hit now i e c)
  unfolding hit to_front total_size
  hit-IsValid {c} v now i e here = record {
    agree = unfold to_front in front-Agree v.agree i e _ here refl;
    sized = omega (arith, v.sized, total_size-remove i c.evict_list v.agree.distinct here);
    counted = omega (arith, v.counted, length-remove i c.evict_list v.agree.distinct here);
    bounded = omega (arith, v.bounded, length-remove i c.evict_list v.agree.distinct here);
  }

  -- Only the counters of hits and the like differ.
  miss-IsValid : {c : LruCache J} → IsValid c → IsValid (miss c)
  unfolding miss
  miss-IsValid v = record {
    agree = v.agree;
    sized = v.sized;
    counted = v.counted;
    bounded = v.bounded;
  }

  pub count_set-IsValid : {c : LruCache J} → IsValid c → IsValid (count_set c)
  unfolding count_set
  count_set-IsValid v = record {
    agree = v.agree;
    sized = v.sized;
    counted = v.counted;
    bounded = v.bounded;
  }

  pub is_over-room :
      (size : ℕ) (c : LruCache J) → is_over size c ≡ false → length c.evict_list < c.capacity
  unfolding is_over
  is_over-room size c h = ground arith

  pub put_entry-IsValid :
      (fuel : ℕ) (e : Entry J) {c c' : LruCache J}
      → IsValid c
      → put_entry fuel e c ≡ some c'
      → IsValid c'
  unfolding put_entry
  put_entry-IsValid fuel e {c} {c'} v h = elim (Option-cases (find_element e.key c)) [
    | inl absent ↦ elim (Option-cases (make_room fuel e.size c)) [
      | inl endless ↦ absurd (ground (arith, absent, endless))
      | inr (d, made) ↦
          let (vd, sd, fits) = make_room-IsValid fuel e.size c v made in
          subst IsValid (ground (arith, absent, made)) (
            push_front-IsValid vd e (sd.only_less e.key (find_element-absent v e.key absent))
              (is_over-room e.size d fits))
    ]
    | inr ((i, old), found) ↦
        let (at_key, here, same) = find_element-found v e.key found in
        subst IsValid (ground (arith, found)) (store_existing-IsValid v i old e here same)
  ]

  pub get-IsValid : (now : ℕ) (key : Str) {c : LruCache J} → IsValid c → IsValid (get now key c).1
  unfolding get
  get-IsValid now key {c} v = elim (Option-cases (find_element key c)) [
    | inl absent ↦ rw (absent, get) (miss-IsValid v)
    | inr ((i, e), found) ↦
        let (at_key, here, same) = find_element-found v key found in
        elim (Bool-cases (is_expired now e)) [
          | inl old ↦ rw (found, get) (rw old (miss-IsValid (remove_element-IsValid v i e here)))
          | inr live ↦ rw (found, get) (rw live (hit-IsValid v now i e here))
        ]
  ]
