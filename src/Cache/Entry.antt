-- ===== src/Cache/Entry.antt =====
-- pkg/cache/cache.go: the entries of the cache, what estimateSize makes of a value, and the list of
-- elements (container/list) with the most recently used in front. An element is known by a number,
-- which stands for its address. Time is a number of nanoseconds.
use glyphlang.Prelude.{
  ℕ, ◌+◌, ◌≡◌, refl, Bool, false, List, [], ◌∷◌, Option, some, none, ◌==◌, if◌then◌else◌, length,
  arith, ltb, Bool-cases, inl, inr,
}
use glyphlang.Prelude.Maps.{Str}

-- The dynamic types that estimateSize tells apart; `J` is any other type of value.
pub data CacheValue (J : Type 0) : Type 0 where
  text : Str → CacheValue J
  bytes : List ℕ → CacheValue J
  eight_bytes : ℕ → CacheValue J
  other : J → CacheValue J

-- time.Duration
pub data Duration : Type 0 where
  nanoseconds : ℕ → Duration
  negative : ℕ → Duration

-- Entry; `expires_at` is `none` for the zero time.
pub record Entry (J : Type 0) : Type 0 where
  pub key : Str
  pub value : CacheValue J
  pub expires_at : Option ℕ
  pub created_at : ℕ
  pub accessed_at : ℕ
  pub access_count : ℕ
  pub size : ℕ
  pub tags : List Str

module _ {J : Type 0} where
  -- IsExpired
  unfoldable pub is_expired : ℕ → Entry J → Bool
  is_expired now e = elim e.expires_at [ none ↦ false | some t ↦ ltb t now ]

  -- estimateSize; `marshalled` is the length of the JSON text, or `none` where json.Marshal fails.
  unfoldable pub estimate_size : (J → Option ℕ) → CacheValue J → ℕ
  estimate_size marshalled (text s) = length s
  estimate_size marshalled (bytes b) = length b
  estimate_size marshalled (eight_bytes n) = 8
  estimate_size marshalled (other j) = elim (marshalled j) [ none ↦ 64 | some n ↦ n ]

  -- elem.Value.(*Entry)
  unfoldable pub entry_of : ℕ → List (ℕ × Entry J) → Option (Entry J)
  entry_of i [] = none
  entry_of i ((j, e) ∷ l) = if j == i then some e else entry_of i l

  -- evictList.Remove(elem)
  unfoldable pub remove : ℕ → List (ℕ × Entry J) → List (ℕ × Entry J)
  remove i [] = []
  remove i ((j, e) ∷ l) = if j == i then remove i l else (j, e) ∷ remove i l

  -- evictList.MoveToFront(elem), with the entry that elem.Value then holds
  unfoldable pub to_front : ℕ → Entry J → List (ℕ × Entry J) → List (ℕ × Entry J)
  to_front i e l = (i, e) ∷ remove i l

  -- evictList.Back()
  unfoldable pub back : List (ℕ × Entry J) → Option (ℕ × Entry J)
  back [] = none
  back (x ∷ []) = some x
  back (x ∷ y ∷ l) = back (y ∷ l)

  unfoldable pub total_size : List (ℕ × Entry J) → ℕ
  total_size [] = 0
  total_size ((j, e) ∷ l) = e.size + total_size l

  -- No element stands in the list twice.
  unfoldable pub AreDistinct : List (ℕ × Entry J) → Type 0
  AreDistinct [] = Unit
  AreDistinct ((j, e) ∷ l) = (entry_of j l ≡ none) × AreDistinct l

  pub entry_of-remove :
      (i j : ℕ) (l : List (ℕ × Entry J))
      → entry_of j (remove i l) ≡ (if i == j then none else entry_of j l)
  unfolding entry_of remove
  entry_of-remove i j [] = ground arith
  entry_of-remove i j ((k, e) ∷ l) = ground (arith, entry_of-remove i j l)

  remove_absent : (i : ℕ) (l : List (ℕ × Entry J)) → entry_of i l ≡ none → remove i l ≡ l
  unfolding entry_of remove
  remove_absent i [] h = refl
  remove_absent i ((k, e) ∷ l) h = ground (arith, remove_absent i l)

  pub remove-AreDistinct :
      (i : ℕ) (l : List (ℕ × Entry J)) → AreDistinct l → AreDistinct (remove i l)
  unfolding AreDistinct remove
  remove-AreDistinct i [] h = tt
  remove-AreDistinct i ((k, e) ∷ l) h = elim (Bool-cases (k == i)) [
    | inl same ↦ rw same (remove-AreDistinct i l h.1)
    | inr apart ↦ rw apart (ground (arith, h.0, entry_of-remove i k l), remove-AreDistinct i l h.1)
  ]

  pub total_size-remove :
      (i : ℕ) (l : List (ℕ × Entry J)) {e : Entry J}
      → AreDistinct l
      → entry_of i l ≡ some e
      → total_size (remove i l) + e.size ≡ total_size l
  unfolding total_size entry_of remove AreDistinct
  total_size-remove i [] d h = cc
  total_size-remove i ((k, x) ∷ l) {e} d h =
      ground (arith, remove_absent i l, total_size-remove i l {e = e})

  pub length-remove :
      (i : ℕ) (l : List (ℕ × Entry J)) {e : Entry J}
      → AreDistinct l
      → entry_of i l ≡ some e
      → length (remove i l) + 1 ≡ length l
  unfolding entry_of remove AreDistinct
  length-remove i [] d h = cc
  length-remove i ((k, x) ∷ l) {e} d h =
      ground (arith, remove_absent i l, length-remove i l {e = e})
