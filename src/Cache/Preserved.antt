-- ===== src/Cache/Preserved.antt =====
-- pkg/cache/cache.go: the methods keep the invariant of the cache.
use glyphlang.Prelude.{
  ℕ, zero, suc, ◌≡◌, refl, ◌∙◌, subst, false, List, [], ◌∷◌, some, none, arith, Bool-cases,
  Option-cases, inl, inr,
}
use glyphlang.Prelude.Maps.{Str, lookup, lookup-delete}
use glyphlang.Cache.Entry.{Entry, entry_of, back, AreDistinct, total_size-remove, length-remove}
use glyphlang.Cache.Lru.{LruCache, find_element, remove_element, evict_oldest, is_over, make_room}
use glyphlang.Cache.Valid.{IsValid, remove-Agree}

module _ {J : Type 0} where
  -- What finding an element says.
  pub find_element-found :
      {c : LruCache J}
      → IsValid c
      → (key : Str) {i : ℕ} {e : Entry J} → find_element key c ≡ some (i, e)
      → (lookup key c.items ≡ some i) × (entry_of i c.evict_list ≡ some e) × (e.key ≡ key)
  unfolding find_element
  find_element-found {c} v key {i} {e} h = elim (Option-cases (lookup key c.items)) [
    | inl absent ↦ absurd (ground (arith, absent))
    | inr (j, there) ↦ let (x, hx, hk) = v.agree.listed key j there in ground (arith, there, hx, hk)
  ]

  pub find_element-absent :
      {c : LruCache J}
      → IsValid c
      → (key : Str) → find_element key c ≡ none
      → lookup key c.items ≡ none
  unfolding find_element
  find_element-absent {c} v key h = elim (Option-cases (lookup key c.items)) [
    | inl absent ↦ absent
    | inr (j, there) ↦ let (x, hx, hk) = v.agree.listed key j there in ground (arith, there, hx, hk)
  ]

  pub remove_element-IsValid :
      {c : LruCache J}
      → IsValid c
      → (i : ℕ) (e : Entry J) → entry_of i c.evict_list ≡ some e
      → IsValid (remove_element i e c)
  unfolding remove_element
  remove_element-IsValid {c} v i e here = record {
    agree = remove-Agree v.agree i e here;
    sized = omega (arith, v.sized, total_size-remove i c.evict_list v.agree.distinct here);
    counted = omega (arith, v.counted, length-remove i c.evict_list v.agree.distinct here);
    bounded = omega (arith, v.bounded, length-remove i c.evict_list v.agree.distinct here);
  }

  pub back-found :
      (l : List (ℕ × Entry J)) {i : ℕ} {e : Entry J}
      → AreDistinct l
      → back l ≡ some (i, e)
      → entry_of i l ≡ some e
  unfolding back AreDistinct entry_of
  back-found [] d h = cc
  back-found ((j, x) ∷ []) d h = ground arith
  back-found ((j, x) ∷ y ∷ l) {i} {e} d h =
      let there = back-found (y ∷ l) {i = i} {e = e} d.1 h in ground (arith, there, d.0)

  pub evict_oldest-IsValid : {c : LruCache J} → IsValid c → IsValid (evict_oldest c)
  unfolding evict_oldest
  evict_oldest-IsValid {c} v = elim (Option-cases (back c.evict_list)) [
    | inl empty ↦ rw (empty, evict_oldest) v
    | inr ((i, e), last) ↦
        rw (last, evict_oldest)
          (let w = remove_element-IsValid v i e (back-found c.evict_list v.agree.distinct last) in
            record { agree = w.agree; sized = w.sized; counted = w.counted; bounded = w.bounded })
  ]

  -- What evicting does not change, or only takes away.
  pub record Shrinks (c c' : LruCache J) : Type 0 where
    pub same_capacity : c'.capacity ≡ c.capacity
    pub same_max : c'.max_size ≡ c.max_size
    pub only_less : (key : Str) → lookup key c.items ≡ none → lookup key c'.items ≡ none

  pub evict_oldest-Shrinks : (c : LruCache J) → Shrinks c (evict_oldest c)
  unfolding evict_oldest remove_element
  evict_oldest-Shrinks c = elim (Option-cases (back c.evict_list)) [
    | inl empty ↦
        rw (empty, evict_oldest)
          (record { same_capacity = refl; same_max = refl; only_less = λ key h. h })
    | inr ((i, e), last) ↦
        rw (last, evict_oldest)
          (record {
            same_capacity = refl;
            same_max = refl;
            only_less = λ key h. ground (arith, lookup-delete e.key key c.items);
          })
  ]

  pub make_room-IsValid :
      (fuel size : ℕ) (c : LruCache J) {c' : LruCache J}
      → IsValid c
      → make_room fuel size c ≡ some c'
      → IsValid c' × Shrinks c c' × (is_over size c' ≡ false)
  unfolding make_room
  make_room-IsValid zero size c v h = cc
  make_room-IsValid (suc fuel) size c {c'} v h = elim (Bool-cases (is_over size c)) [
    | inl over ↦
        let next : make_room fuel size (evict_oldest c) ≡ some c' = rw (over, make_room) at h in
        let (v', s', fits) =
          make_room-IsValid fuel size (evict_oldest c) (evict_oldest-IsValid v) next in
        let s = evict_oldest-Shrinks c in
        (
          v',
          record {
            same_capacity = s'.same_capacity ∙ s.same_capacity;
            same_max = s'.same_max ∙ s.same_max;
            only_less = λ key e. s'.only_less key (s.only_less key e);
          },
          fits,
        )
    | inr fits ↦
        let done : c ≡ c' = ground (arith, fits) in
        subst (λ d. IsValid d × Shrinks c d × (is_over size d ≡ false)) done
          (v, record { same_capacity = refl; same_max = refl; only_less = λ key e. e }, fits)
  ]
