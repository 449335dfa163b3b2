-- ===== src/Cache/Room.antt =====
-- pkg/cache/cache.go: the loop of Set that evicts. When it ends, and which entries it leaves.
use glyphlang.Prelude.{
  ℕ, zero, suc, ◌+◌, ◌≤◌, ◌<◌, ◌≡◌, ◌≢◌, ◌↔◌, ◌⊎◌, refl, true, false, List, [], ◌∷◌, Option, some,
  none, ◌==◌, ==_iff, length, arith, Bool-cases, Option-cases, inl, inr,
}
use glyphlang.Prelude.Maps.{Str}
use glyphlang.Cache.Entry.{
  CacheValue, Duration, Entry, estimate_size, back, total_size, length-remove,
}
use glyphlang.Cache.Lru.{
  LruCache, find_element, remove_element, evict_oldest, is_over, make_room, set_key, put_entry,
  new_entry, count_set, push_front,
}
use glyphlang.Cache.Valid.{IsValid}
use glyphlang.Cache.Preserved.{
  back-found, evict_oldest-IsValid, make_room-IsValid, evict_oldest-Shrinks,
}

module _ {J : Type 0} where
  -- An entry of this size can be in the cache at all.
  abbrev pub Fits : ℕ → LruCache J → Type 0
  Fits size c = (0 < c.capacity) × ((c.max_size ≡ 0) ⊎ (size ≤ c.max_size))

  pub back-some :
      (x : ℕ × Entry J) (l : List (ℕ × Entry J)) → (y : ℕ × Entry J) × (back (x ∷ l) ≡ some y)
  unfolding back
  back-some x [] = (x, refl)
  back-some x (y ∷ l) = back-some y l

  -- Evicting from a cache that is not empty makes its list shorter.
  evict_oldest-shorter :
      (c : LruCache J)
      → IsValid c
      → length c.evict_list ≢ 0
      → length (evict_oldest c).evict_list + 1 ≡ length c.evict_list
  unfolding evict_oldest remove_element back
  evict_oldest-shorter c v some_left = elim (Option-cases (back c.evict_list)) [
    | inl empty ↦ absurd (back_none c.evict_list empty some_left)
    | inr ((i, e), last) ↦
        rw (last, evict_oldest)
          (length-remove i c.evict_list v.agree.distinct
            (back-found c.evict_list v.agree.distinct last))
  ]
    where
      back_none : (l : List (ℕ × Entry J)) → back l ≡ none → length l ≢ 0 → ⊥
      back_none [] h ne = ne refl
      back_none (x ∷ l) h ne = let (y, there) = back-some x l in cc

  total_size_empty : (l : List (ℕ × Entry J)) → length l ≡ 0 → total_size l ≡ 0
  unfolding total_size
  total_size_empty [] h = refl
  total_size_empty (x ∷ l) h = absurd (omega arith)

  is_over-left :
      (size : ℕ) (c : LruCache J)
      → IsValid c
      → Fits size c
      → is_over size c ≡ true
      → length c.evict_list ≢ 0
  unfolding is_over
  is_over-left size c v fits over empty =
      ground (arith, v.sized, total_size_empty c.evict_list empty, fits.0, fits.1)

  -- The loop ends within as many rounds as there are entries, if the new entry fits at all.
  make_room-ends :
      (fuel size : ℕ) (c : LruCache J)
      → IsValid c
      → Fits size c
      → length c.evict_list < fuel
      → (c' : LruCache J) × (make_room fuel size c ≡ some c')
  unfolding make_room
  make_room-ends zero size c v fits h = elim h [ ]
  make_room-ends (suc fuel) size c v fits h = elim (Bool-cases (is_over size c)) [
    | inr done ↦ (c, rw (done, make_room))
    | inl over ↦
        let s = evict_oldest-Shrinks c in
        let (c', made) =
          make_room-ends fuel size (evict_oldest c) (evict_oldest-IsValid v)
            (rw (s.same_capacity, s.same_max) fits)
            (omega (arith, evict_oldest-shorter c v (is_over-left size c v fits over))) in
        (c', rw (over, make_room) made)
  ]

  is_over-Fits : (size : ℕ) (c : LruCache J) → is_over size c ≡ false → Fits size c
  unfolding is_over
  is_over-Fits size c h = (
    ground arith,
    elim (Bool-cases (c.max_size == 0)) [
      | inl unbounded ↦ inl ((==_iff c.max_size 0).0 unbounded)
      | inr bounded ↦ inr (ground arith)
    ],
  )

  -- When the loop ends, the entry fits.
  make_room-Fits :
      (fuel size : ℕ) (c : LruCache J) {c' : LruCache J}
      → IsValid c
      → make_room fuel size c ≡ some c'
      → Fits size c
  make_room-Fits fuel size c {c'} v made =
      let (v', s, fits) = make_room-IsValid fuel size c v made in
      rw (← s.same_capacity, ← s.same_max) (is_over-Fits size c' fits)

module _ {J : Type 0} (marshalled : J → Option ℕ) where
  -- For a cache with the invariant, Set of a key that is not in it returns, with some fuel, just if
  -- the capacity is not 0 and the value is no larger than the maximal size, where one is set.
  -- Otherwise no fuel is enough for the loop that evicts.
  pub set_key-returns_iff :
      (now : ℕ) (key : Str) (value : CacheValue J) (ttl : Duration) (c : LruCache J)
      → IsValid c
      → find_element key c ≡ none
      → ((fuel : ℕ) × (c' : LruCache J) × (set_key marshalled fuel now key value ttl c ≡ some c'))
        ↔ Fits (estimate_size marshalled value) c
  unfolding set_key put_entry new_entry
  set_key-returns_iff now key value ttl c v absent = (returns→fits, fits→returns)
    where
      returns→fits :
          ((fuel : ℕ) × (c' : LruCache J) × (set_key marshalled fuel now key value ttl c ≡ some c'))
          → Fits (estimate_size marshalled value) c
      returns→fits (fuel, c', e) =
          elim (Option-cases (make_room fuel (estimate_size marshalled value) c)) [
            | inl endless ↦ absurd (ground (arith, absent, endless))
            | inr (d, made) ↦ make_room-Fits fuel (estimate_size marshalled value) c v made
          ]

      fits→returns :
          Fits (estimate_size marshalled value) c
          → ((fuel : ℕ) × (c' : LruCache J) × (set_key marshalled fuel now key value ttl c
                ≡ some c'))
      fits→returns f =
          let (d, made) =
            make_room-ends (suc (length c.evict_list)) (estimate_size marshalled value) c v f
              (omega arith) in
          (
            suc (length c.evict_list),
            count_set (push_front (new_entry marshalled now key value ttl [] c) d),
            rw (absent, put_entry) (rw made),
          )
