-- ===== src/Cache/Order.antt =====
-- pkg/cache/cache.go: which entries Set evicts, and what Get finds after it.
use glyphlang.Prelude.{
  ℕ, zero, suc, ◌+◌, ◌≤◌, ◌<◌, ◌≡◌, refl, sym, ◌∙◌, ap, subst, Bool, true, false, ◌&&◌, ◌||◌, List,
  [], ◌∷◌, some, none, ◌==◌, ==_iff, length, ltb, leb, arith, Bool-cases, Option-cases, inl, inr,
  take,
}
use glyphlang.Cache.Entry.{Entry, entry_of, remove, back, total_size, AreDistinct}
use glyphlang.Cache.Lru.{LruCache, remove_element, evict_oldest, is_over, make_room}
use glyphlang.Cache.Valid.{IsValid}
use glyphlang.Cache.Room.{back-some}
use glyphlang.Cache.Preserved.{back-found, evict_oldest-IsValid, Shrinks, evict_oldest-Shrinks}

module _ {J : Type 0} where
  -- All but the last element.
  init : List (ℕ × Entry J) → List (ℕ × Entry J)
  init [] = []
  init (x ∷ []) = []
  init (x ∷ y ∷ l) = x ∷ init (y ∷ l)

  length-init : (x : ℕ × Entry J) (l : List (ℕ × Entry J)) → length (init (x ∷ l)) ≡ length l
  unfolding init
  length-init x [] = refl
  length-init x (y ∷ l) = ap suc (length-init y l)

  -- A shorter part from the front is a part of all but the last.
  take-init : (n : ℕ) (l : List (ℕ × Entry J)) → n < length l → take n (init l) ≡ take n l
  unfolding init
  take-init n [] h = elim h [ ]
  take-init zero (x ∷ l) h = refl
  take-init (suc n) (x ∷ []) h = absurd (omega arith)
  take-init (suc n) (x ∷ y ∷ l) h = ap (◌∷◌ x) (take-init n (y ∷ l) (omega arith))

  remove-absent : (i : ℕ) (l : List (ℕ × Entry J)) → entry_of i l ≡ none → remove i l ≡ l
  unfolding entry_of remove
  remove-absent i [] h = refl
  remove-absent i ((k, e) ∷ l) h = ground (arith, remove-absent i l)

  -- Removing the last element leaves the others in their order.
  remove-back :
      (l : List (ℕ × Entry J)) {i : ℕ} {e : Entry J}
      → AreDistinct l
      → back l ≡ some (i, e)
      → remove i l ≡ init l
  unfolding back AreDistinct remove init entry_of
  remove-back [] d h = cc
  remove-back ((j, x) ∷ []) d h = ground arith
  remove-back ((j, x) ∷ y ∷ l) {i} {e} d h =
      let there = back-found (y ∷ l) {i = i} {e = e} d.1 h in
      let apart : (j == i) ≡ false = ground (arith, there, d.0) in
      rw apart (ap (◌∷◌ (j, x)) (remove-back (y ∷ l) {i = i} {e = e} d.1 h))

  init_of_empty : (l : List (ℕ × Entry J)) → back l ≡ none → l ≡ init l
  unfolding init back
  init_of_empty [] h = refl
  init_of_empty (x ∷ l) h = let (y, there) = back-some x l in cc

  evict_oldest-init : (c : LruCache J) → IsValid c → (evict_oldest c).evict_list ≡ init c.evict_list
  unfolding evict_oldest remove_element
  evict_oldest-init c v = elim (Option-cases (back c.evict_list)) [
    | inl empty ↦ rw (empty, evict_oldest) (init_of_empty c.evict_list empty)
    | inr ((i, e), last) ↦ rw (last, evict_oldest) (remove-back c.evict_list v.agree.distinct last)
  ]

  take-init_le : (n : ℕ) (l : List (ℕ × Entry J)) → n ≤ length (init l) → take n (init l) ≡ take n l
  unfolding init
  take-init_le n [] h = refl
  take-init_le n (x ∷ l) h = take-init n (x ∷ l) (omega (arith, length-init x l))

  length-init_suc : (n : ℕ) (l : List (ℕ × Entry J)) → n < length l → n ≤ length (init l)
  length-init_suc n [] h = elim h [ ]
  length-init_suc n (x ∷ l) h = omega (arith, length-init x l)

  length-init_le : (l : List (ℕ × Entry J)) → length (init l) ≤ length l
  unfolding init
  length-init_le [] = omega arith
  length-init_le (x ∷ l) = omega (arith, length-init x l)

  take_all : (l : List (ℕ × Entry J)) → take (length l) l ≡ l
  take_all [] = refl
  take_all (x ∷ l) = ap (◌∷◌ x) (take_all l)

  -- The condition of the loop, with the `n` entries used last in the cache.
  abbrev pub is_over_at : ℕ → LruCache J → ℕ → Bool
  is_over_at size c n =
      leb c.capacity n
      || (ltb 0 c.max_size && ltb c.max_size (total_size (take n c.evict_list) + size))

  is_over-at :
      (size : ℕ) (c : LruCache J)
      → IsValid c
      → is_over size c ≡ is_over_at size c (length c.evict_list)
  unfolding is_over
  is_over-at size c v = rw (take_all c.evict_list, v.sized)

  is_over_at-same :
      (size n : ℕ) {c d : LruCache J}
      → Shrinks c d
      → take n d.evict_list ≡ take n c.evict_list
      → is_over_at size d n ≡ is_over_at size c n
  is_over_at-same size n s same = rw (s.same_capacity, s.same_max, same)

  -- What the loop of Set leaves.
  pub record KeepsRecent (size : ℕ) (c c' : LruCache J) : Type 0 where
    pub kept : ℕ
    pub in_range : kept ≤ length c.evict_list
    pub recent : c'.evict_list ≡ take kept c.evict_list
    pub enough : is_over_at size c kept ≡ false
    pub needed : (n : ℕ) → kept < n → n ≤ length c.evict_list → is_over_at size c n ≡ true

  -- One more eviction in front of the others.
  evict_first :
      (size : ℕ) (c c' : LruCache J)
      → IsValid c
      → is_over size c ≡ true
      → KeepsRecent size (evict_oldest c) c'
      → KeepsRecent size c c'
  evict_first size c c' v over r =
      let s = evict_oldest-Shrinks c in
      let shorter = evict_oldest-init c v in
      let prefix : (n : ℕ)
          → n ≤ length (init c.evict_list)
          → take n (evict_oldest c).evict_list ≡ take n c.evict_list =
        λ n le. ap (take n) shorter ∙ take-init_le n c.evict_list le in
      let within : r.kept ≤ length (init c.evict_list) =
        omega (arith, r.in_range, ap length shorter) in
      record {
        kept = r.kept;
        in_range = omega (arith, within, length-init_le c.evict_list);
        recent = r.recent ∙ prefix r.kept within;
        enough = sym (is_over_at-same size r.kept s (prefix r.kept within)) ∙ r.enough;
        needed = λ n more le. elim (Bool-cases (n == length c.evict_list)) [
          | inl all ↦ rw ((==_iff n (length c.evict_list)).0 all) (sym (is_over-at size c v) ∙ over)
          | inr fewer ↦
              let le' : n ≤ length (init c.evict_list) =
                length-init_suc n c.evict_list (ground arith) in
              sym (is_over_at-same size n s (prefix n le'))
              ∙ r.needed n more (omega (arith, ap length shorter))
        ];
      }

  -- For a cache with the invariant, where the loop of Set that evicts ends, it has kept the entries
  -- used last, in their order: as many of them as leave room for the new one, and no fewer.
  pub make_room-KeepsRecent :
      (fuel size : ℕ) (c : LruCache J) {c' : LruCache J}
      → IsValid c
      → make_room fuel size c ≡ some c'
      → KeepsRecent size c c'
  unfolding make_room
  make_room-KeepsRecent zero size c v h = cc
  make_room-KeepsRecent (suc fuel) size c {c'} v h = elim (Bool-cases (is_over size c)) [
    | inl over ↦ evict_first size c c' v over (
        make_room-KeepsRecent fuel size (evict_oldest c) (evict_oldest-IsValid v)
          (rw (over, make_room) at h))
    | inr fits ↦
        let done : c ≡ c' = ground (arith, fits) in
        subst (KeepsRecent size c) done (record {
          kept = length c.evict_list;
          in_range = omega arith;
          recent = sym (take_all c.evict_list);
          enough = sym (is_over-at size c v) ∙ fits;
          needed = λ n more le. absurd (omega arith);
        })
  ]
