-- ===== src/Cache/Lru.antt =====
-- pkg/cache/cache.go: LRUCache and its methods but Stats, which only reads, and Close. The mutex makes
-- each method one step. Sizes, counts and capacities are natural numbers, without the wrap-around of
-- int64; a limit that is negative in the source acts as 0 does. A range over the map meets the keys in the order in which
-- they were put there, where Go leaves the order open; the order of the removals and of the onEvict
-- calls depends on it.
use mathlib.Core.Option
use glyphlang.Prelude.{
  ℕ, zero, suc, ◌+◌, ◌-◌, ◌%◌, ◌^◌, Bool, true, false, ◌&&◌, ◌||◌, List, [], ◌∷◌, Option, some,
  none, if◌then◌else◌, length, ltb, leb,
}
use glyphlang.Prelude.Maps.{Str, str_eq, lookup, insert, delete}
use glyphlang.Cache.Entry.{
  CacheValue, Duration, nanoseconds, negative, Entry, is_expired, estimate_size, entry_of, remove,
  to_front, back,
}

-- The counters of Stats.
pub record Counters : Type 0 where
  pub hits : ℕ
  pub misses : ℕ
  pub sets : ℕ
  pub deletes : ℕ
  pub evictions : ℕ
  pub entry_count : ℕ

-- LRUCache. `next_element` is the address of the next element; `has_on_evict` says that onEvict is
-- set, and `evict_calls` are the arguments that it was called with, the last first.
pub record LruCache (J : Type 0) : Type 0 where
  pub capacity : ℕ
  pub items : List (Str × ℕ)
  pub evict_list : List (ℕ × Entry J)
  pub next_element : ℕ
  pub default_ttl : Duration
  pub has_on_evict : Bool
  pub evict_calls : List (Str × CacheValue J)
  pub stats : Counters
  pub max_size : ℕ
  pub current_size : ℕ

-- atomic.AddUint64(&n, 1)
unfoldable pub increment : ℕ → ℕ
increment n = (n + 1) % 2 ^ 64

abbrev pub no_counts : Counters
no_counts = record { hits = 0; misses = 0; sets = 0; deletes = 0; evictions = 0; entry_count = 0 }

-- `if ttl == 0 { ttl = c.ttl }`
unfoldable pub effective_ttl : Duration → Duration → Duration
effective_ttl (nanoseconds zero) default_ttl = default_ttl
effective_ttl ttl default_ttl = ttl

-- `if ttl > 0 { expiresAt = time.Now().Add(ttl) }`
unfoldable pub expiry : ℕ → Duration → Option ℕ
expiry now (nanoseconds zero) = none
expiry now (nanoseconds (suc n)) = some (now + suc n)
expiry now (negative n) = none

unfoldable pub has_tag : Str → List Str → Bool
has_tag tag [] = false
has_tag tag (t ∷ tags) = str_eq t tag || has_tag tag tags

module _ {J : Type 0} where
  -- NewLRUCache, with its options as arguments
  unfoldable pub new_cache : ℕ → Duration → ℕ → Bool → LruCache J
  new_cache capacity ttl max_size has_on_evict = record {
    capacity = capacity;
    items = [];
    evict_list = [];
    next_element = 0;
    default_ttl = ttl;
    has_on_evict = has_on_evict;
    evict_calls = [];
    stats = no_counts;
    max_size = max_size;
    current_size = 0;
  }

  -- elem, ok := c.items[key], and the entry that it holds
  unfoldable pub find_element : Str → LruCache J → Option (ℕ × Entry J)
  find_element key c = elim (lookup key c.items) [
    | none ↦ none
    | some i ↦ Option.map (λ e. (i, e)) (entry_of i c.evict_list)
  ]

  unfoldable pub called : Entry J → LruCache J → List (Str × CacheValue J)
  called e c = if c.has_on_evict then (e.key, e.value) ∷ c.evict_calls else c.evict_calls

  -- removeElement
  unfoldable pub remove_element : ℕ → Entry J → LruCache J → LruCache J
  remove_element i e c = record c {
    evict_list = remove i c.evict_list;
    items = delete e.key c.items;
    current_size = c.current_size - e.size;
    stats = record c.stats { entry_count = c.stats.entry_count - 1 };
    evict_calls = called e c;
  }

  -- evictOldest
  unfoldable pub evict_oldest : LruCache J → LruCache J
  evict_oldest c = elim (back c.evict_list) [
    | none ↦ c
    | some x ↦
        let c' = remove_element x.0 x.1 c in
        record c' { stats = record c'.stats { evictions = increment c'.stats.evictions } }
  ]

  -- The condition of the loop that evicts.
  unfoldable pub is_over : ℕ → LruCache J → Bool
  is_over size c =
      leb c.capacity (length c.evict_list)
      || (ltb 0 c.max_size && ltb c.max_size (c.current_size + size))

  -- The loop that evicts; `none` means that the fuel ran out.
  unfoldable pub make_room : ℕ → ℕ → LruCache J → Option (LruCache J)
  make_room zero size c = none
  make_room (suc fuel) size c = elim (is_over size c) [
    | false ↦ some c
    | true ↦ make_room fuel size (evict_oldest c)
  ]

  -- Get
  unfoldable pub hit : ℕ → ℕ → Entry J → LruCache J → LruCache J
  hit now i e c = record c {
    evict_list =
        to_front i (record e { accessed_at = now; access_count = increment e.access_count })
          c.evict_list;
    stats = record c.stats { hits = increment c.stats.hits };
  }

  unfoldable pub miss : LruCache J → LruCache J
  miss c = record c { stats = record c.stats { misses = increment c.stats.misses } }

  unfoldable pub get : ℕ → Str → LruCache J → Option (CacheValue J) × LruCache J
  unfolding hit miss
  get now key c = elim (find_element key c) [
    | none ↦ (none, miss c)
    | some x ↦
        if is_expired now x.1
        then (none, miss (remove_element x.0 x.1 c))
        else (some x.1.value, hit now x.0 x.1 c)
  ]

  -- The entry that Set and SetWithTags make.
  unfoldable pub new_entry :
      (J → Option ℕ) → ℕ → Str → CacheValue J → Duration → List Str → LruCache J → Entry J
  new_entry marshalled now key value ttl tags c = record {
    key = key;
    value = value;
    expires_at = expiry now (effective_ttl ttl c.default_ttl);
    created_at = now;
    accessed_at = now;
    access_count = 0;
    size = estimate_size marshalled value;
    tags = tags;
  }

  -- The key exists: its element gets the entry and goes to the front.
  unfoldable pub store_existing : ℕ → Entry J → Entry J → LruCache J → LruCache J
  store_existing i old e c = record c {
    evict_list = to_front i e c.evict_list;
    current_size = c.current_size - old.size + e.size;
  }

  -- evictList.PushFront and the lines after it
  unfoldable pub push_front : Entry J → LruCache J → LruCache J
  push_front e c = record c {
    evict_list = (c.next_element, e) ∷ c.evict_list;
    items = insert e.key c.next_element c.items;
    next_element = suc c.next_element;
    current_size = c.current_size + e.size;
    stats = record c.stats { entry_count = suc c.stats.entry_count };
  }

  unfoldable pub put_entry : ℕ → Entry J → LruCache J → Option (LruCache J)
  put_entry fuel e c = elim (find_element e.key c) [
    | some x ↦ some (store_existing x.0 x.1 e c)
    | none ↦ Option.map (push_front e) (make_room fuel e.size c)
  ]

  unfoldable pub count_set : LruCache J → LruCache J
  count_set c = record c { stats = record c.stats { sets = increment c.stats.sets } }

  module _ (marshalled : J → Option ℕ) (fuel now : ℕ) where
    -- SetWithTags
    unfoldable pub set_with_tags :
        Str → CacheValue J → Duration → List Str → LruCache J → Option (LruCache J)
    set_with_tags key value ttl tags c =
        put_entry fuel (new_entry marshalled now key value ttl tags c) c

    -- Set
    unfoldable pub set_key : Str → CacheValue J → Duration → LruCache J → Option (LruCache J)
    set_key key value ttl c =
        Option.map count_set (put_entry fuel (new_entry marshalled now key value ttl [] c) c)

  -- Delete
  unfoldable pub delete_key : Str → LruCache J → LruCache J
  delete_key key c = elim (find_element key c) [
    | none ↦ c
    | some x ↦
        let c' = remove_element x.0 x.1 c in
        record c' { stats = record c'.stats { deletes = increment c'.stats.deletes } }
  ]

  unfoldable pub select : (Entry J → Bool) → List (ℕ × Entry J) → List (ℕ × Entry J)
  select test [] = []
  select test ((i, e) ∷ l) = if test e then (i, e) ∷ select test l else select test l

  unfoldable pub remove_all : List (ℕ × Entry J) → LruCache J → LruCache J
  remove_all [] c = c
  remove_all ((i, e) ∷ l) c = remove_all l (remove_element i e c)

  -- The range over c.items: the elements with their entries.
  unfoldable pub ranged : List (Str × ℕ) → List (ℕ × Entry J) → List (ℕ × Entry J)
  ranged [] l = []
  ranged ((key, i) ∷ items) l =
      let rest = ranged items l in elim (entry_of i l) [ none ↦ rest | some e ↦ (i, e) ∷ rest ]

  -- DeleteByTag
  unfoldable pub delete_by_tag : Str → LruCache J → ℕ × LruCache J
  unfolding ranged
  delete_by_tag tag c =
      let chosen = select (λ e. has_tag tag e.tags) (ranged c.items c.evict_list) in
      (length chosen, remove_all chosen c)

  -- One tick of cleanup.
  unfoldable pub cleanup : ℕ → LruCache J → LruCache J
  unfolding ranged
  cleanup now c = remove_all (select (is_expired now) (ranged c.items c.evict_list)) c

  -- The calls of onEvict in the range of Clear.
  unfoldable pub clear_calls :
      List (Str × ℕ) → List (ℕ × Entry J) → List (Str × CacheValue J) → List (Str × CacheValue J)
  clear_calls [] l calls = calls
  clear_calls ((key, i) ∷ items) l calls = elim (entry_of i l) [
    | none ↦ clear_calls items l calls
    | some e ↦ clear_calls items l ((key, e.value) ∷ calls)
  ]

  -- Clear
  unfoldable pub clear : LruCache J → LruCache J
  clear c = record c {
    items = [];
    evict_list = [];
    current_size = 0;
    stats = record c.stats { entry_count = 0 };
    evict_calls =
        if c.has_on_evict then clear_calls c.items c.evict_list c.evict_calls else c.evict_calls;
  }
