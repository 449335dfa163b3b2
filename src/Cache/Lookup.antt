-- ===== src/Cache/Lookup.antt =====
-- pkg/cache/cache.go: what Get finds after Set, SetWithTags and Delete.
use glyphlang.Prelude.{
  ℕ, zero, suc, ◌+◌, ◌≡◌, refl, ◌∙◌, subst, Bool, true, false, leb, ltb, [], Option, some, none,
  if◌then◌else◌, arith, Bool-cases, Option-cases, inl, inr,
}
use glyphlang.Prelude.Maps.{
  Str, str_eq, str_eq→eq, str_eq_refl, lookup, lookup-insert, lookup-delete, insert,
}
use glyphlang.Cache.Entry.{
  CacheValue, Duration, nanoseconds, negative, Entry, entry_of, to_front, is_expired,
  entry_of-remove,
}
use glyphlang.Cache.Lru.{
  LruCache, find_element, remove_element, make_room, set_key, put_entry, new_entry, expiry,
  effective_ttl, count_set, push_front, store_existing, get, delete_key,
}
use glyphlang.Cache.Valid.{IsValid}
use glyphlang.Cache.Preserved.{find_element-found}

module _ {J : Type 0} where
  -- An entry that was put is found under its key.
  find-store_existing :
      (c : LruCache J) (i : ℕ) (old e : Entry J)
      → lookup e.key c.items ≡ some i
      → find_element e.key (store_existing i old e c) ≡ some (i, e)
  unfolding find_element store_existing entry_of to_front
  find-store_existing c i old e there = rw (there, find_element) (ground arith)

  find-push_front :
      (c : LruCache J) (e : Entry J)
      → find_element e.key (push_front e c) ≡ some (c.next_element, e)
  unfolding find_element push_front entry_of
  find-push_front c e =
      let there : lookup e.key (insert e.key c.next_element c.items) ≡ some c.next_element =
        ground (arith, lookup-insert e.key e.key c.next_element c.items, str_eq_refl e.key) in
      rw (there, find_element) (ground arith)

  find-put_entry :
      (fuel : ℕ) (e : Entry J) {c c' : LruCache J}
      → IsValid c
      → put_entry fuel e c ≡ some c'
      → (i : ℕ) × (find_element e.key c' ≡ some (i, e))
  unfolding put_entry
  find-put_entry fuel e {c} {c'} v h = elim (Option-cases (find_element e.key c)) [
    | inl absent ↦ elim (Option-cases (make_room fuel e.size c)) [
      | inl endless ↦ absurd (ground (arith, absent, endless))
      | inr (d, made) ↦ (
        d.next_element,
        subst (λ x. find_element e.key x ≡ some (d.next_element, e)) (ground (arith, absent, made))
            (find-push_front d e),
      )
    ]
    | inr ((i, old), found) ↦ (
      i,
      subst (λ x. find_element e.key x ≡ some (i, e)) (ground (arith, found))
          (find-store_existing c i old e (find_element-found v e.key found).0),
    )
  ]

  get-found :
      (later : ℕ) (c : LruCache J) (key : Str) {i : ℕ} {e : Entry J}
      → find_element key c ≡ some (i, e)
      → (get later key c).0 ≡ (if is_expired later e then none else some e.value)
  unfolding get
  get-found later c key {i} {e} found = elim (Bool-cases (is_expired later e)) [
    | inl old ↦ rw (found, get) (rw old)
    | inr live ↦ rw (found, get) (rw live)
  ]

  find_element-count_set :
      (key : Str) (c : LruCache J) → find_element key (count_set c) ≡ find_element key c
  unfolding find_element count_set
  find_element-count_set key c = refl

  find-remove_element :
      (c : LruCache J)
      → IsValid c
      → (i : ℕ) (e : Entry J) → entry_of i c.evict_list ≡ some e
      → (j : Str)
      → find_element j (remove_element i e c) ≡ (if str_eq e.key j then none else find_element j c)
  unfolding find_element remove_element
  find-remove_element c v i e here j = elim (Option-cases (lookup j c.items)) [
    | inl absent ↦ ground (arith, lookup-delete e.key j c.items, absent)
    | inr (m, there) ↦
        let (x, hx, hk) = v.agree.listed j m there in
        ground (
          arith,
          lookup-delete e.key j c.items,
          there,
          hx,
          hk,
          str_eq_refl j,
          entry_of-remove i m c.evict_list,
          here,
        )
  ]

  -- For a cache with the invariant, a key that Delete removed is not found, and every other key is
  -- found as before.
  pub find_element-delete_key :
      (key j : Str) (c : LruCache J)
      → IsValid c
      → find_element j (delete_key key c) ≡ (if str_eq key j then none else find_element j c)
  unfolding delete_key remove_element find_element
  find_element-delete_key key j c v = elim (Option-cases (find_element key c)) [
    | inl absent ↦
        rw (absent, delete_key)
          (elim (Bool-cases (str_eq key j)) [
            | inl same ↦ rw (same, ← str_eq→eq key j same) absent
            | inr apart ↦ rw apart
          ])
    | inr ((i, e), found) ↦
        let (at_key, here, same) = find_element-found v key found in
        rw (found, delete_key)
          (subst
            (λ k.
              find_element j (remove_element i e c)
              ≡ (if str_eq k j then none else find_element j c))
            same (find-remove_element c v i e here j))
  ]

get-set_entry :
    {J : Type 0} (marshalled : J → Option ℕ) (fuel now later : ℕ) (key : Str) (value : CacheValue J)
    (ttl : Duration) (c c' : LruCache J)
    → IsValid c
    → set_key marshalled fuel now key value ttl c ≡ some c'
    → (get later key c').0 ≡ (
        if is_expired later (new_entry marshalled now key value ttl [] c) then none else some value)
unfolding set_key new_entry
get-set_entry {J} marshalled fuel now later key value ttl c c' v h =
    elim (Option-cases (put_entry fuel (new_entry marshalled now key value ttl [] c) c)) [
      | inl endless ↦ absurd (ground (arith, endless))
      | inr (d, put) ↦
          let e : Entry J = new_entry marshalled now key value ttl [] c in
          let (i, found) = find-put_entry fuel e v put in
          subst (λ x. (get later key x).0 ≡ (if is_expired later e then none else some value))
            (ground (arith, put))
            (get-found later (count_set d) key (find_element-count_set key d ∙ found))
    ]

-- Whether a value is still there `later`, when it was set at `now` with a time to live, or with the
-- default where this is 0: it stays up to and with the last nanosecond of a positive time, and for
-- ever where the time is 0 by both, or negative.
abbrev pub lives_at : Duration → Duration → ℕ → ℕ → Bool
lives_at (nanoseconds (suc n)) default_ttl now later = leb later (now + suc n)
lives_at (nanoseconds zero) (nanoseconds (suc n)) now later = leb later (now + suc n)
lives_at (nanoseconds zero) (nanoseconds zero) now later = true
lives_at (nanoseconds zero) (negative n) now later = true
lives_at (negative n) default_ttl now later = true

found_if_alive :
    {J : Type 0} (now later : ℕ) (value : CacheValue J) (ttl default_ttl : Duration)
    → (if elim (expiry now (effective_ttl ttl default_ttl)) [ none ↦ false | some t ↦ ltb t later ]
        then none
        else some value)
      ≡ (if lives_at ttl default_ttl now later then some value else none)
unfolding expiry effective_ttl
found_if_alive now later value (nanoseconds zero) (nanoseconds zero) = refl
found_if_alive now later value (nanoseconds zero) (nanoseconds (suc n)) = ground arith
found_if_alive now later value (nanoseconds zero) (negative n) = refl
found_if_alive now later value (nanoseconds (suc n)) default_ttl = ground arith
found_if_alive now later value (negative n) default_ttl = refl

-- For a cache with the invariant, where Set returns, Get finds the value under the key as long as it
-- lives, and nothing after that: a positive time to live of n nanoseconds, or without one (0) a
-- positive default time of the cache, ends n nanoseconds after Set, when the value is still found;
-- with no time by both, or a negative one, the value lives for ever.
pub get-set_key :
    {J : Type 0} (marshalled : J → Option ℕ) (fuel now later : ℕ) (key : Str) (value : CacheValue J)
    (ttl : Duration) (c c' : LruCache J)
    → IsValid c
    → set_key marshalled fuel now key value ttl c ≡ some c'
    → (get later key c').0 ≡ (if lives_at ttl c.default_ttl now later then some value else none)
unfolding is_expired new_entry
get-set_key marshalled fuel now later key value ttl c c' v h =
    get-set_entry marshalled fuel now later key value ttl c c' v h
    ∙ found_if_alive now later value ttl c.default_ttl
