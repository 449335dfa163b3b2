-- ===== src/Tests/Caching.antt =====
-- The cache at concrete inputs.
use glyphlang.Prelude.{ℕ, ◌≡◌, ◌↔◌, refl, [], ◌∷◌, Option, some, none, false}
use glyphlang.Prelude.Maps.{Str, lookup, insert, delete, str_eq}
use glyphlang.Cache.Entry.{
  text, eight_bytes, nanoseconds, Entry, entry_of, estimate_size, back, remove,
}
use glyphlang.Cache.Lru.{
  LruCache, new_cache, set_key, get, find_element, make_room, evict_oldest, remove_element,
  put_entry, push_front, new_entry, count_set, is_over, expiry, effective_ttl, increment, called,
  delete_key,
}
use glyphlang.Cache.Valid.{IsValid}
use glyphlang.Cache.Reachable.{Reaches, created, then_step, was_set, Reaches-IsValid}
use glyphlang.Cache.Room.{Fits, set_key-returns_iff}
use glyphlang.Cache.Order.{KeepsRecent, make_room-KeepsRecent}
use glyphlang.Cache.Lookup.{get-set_key, find_element-delete_key}

-- No value here has a JSON text.
abbrev unmarshalled : ℕ → Option ℕ
unmarshalled j = none

abbrev sample_entry : Str → ℕ → Entry ℕ
sample_entry key n = record {
  key = key;
  value = eight_bytes n;
  expires_at = some 60;
  created_at = 0;
  accessed_at = 0;
  access_count = 0;
  size = 8;
  tags = [];
}

abbrev empty_cache : LruCache ℕ
empty_cache = record {
  capacity = 2;
  items = [];
  evict_list = [];
  next_element = 0;
  default_ttl = nanoseconds 60;
  has_on_evict = false;
  evict_calls = [];
  stats = record { hits = 0; misses = 0; sets = 0; deletes = 0; evictions = 0; entry_count = 0 };
  max_size = 20;
  current_size = 0;
}

-- After Set("a", 1) and Set("b", 2).
abbrev full_cache : LruCache ℕ
full_cache = record empty_cache {
  items = (97 ∷ [], 0) ∷ (98 ∷ [], 1) ∷ [];
  evict_list = (1, sample_entry (98 ∷ []) 2) ∷ (0, sample_entry (97 ∷ []) 1) ∷ [];
  next_element = 2;
  stats = record { hits = 0; misses = 0; sets = 2; deletes = 0; evictions = 0; entry_count = 2 };
  current_size = 16;
}

abbrev one_entry : LruCache ℕ
one_entry = record empty_cache {
  items = (97 ∷ [], 0) ∷ [];
  evict_list = (0, sample_entry (97 ∷ []) 1) ∷ [];
  next_element = 1;
  stats = record { hits = 0; misses = 0; sets = 1; deletes = 0; evictions = 0; entry_count = 1 };
  current_size = 8;
}

empty-Reaches : Reaches unmarshalled empty_cache
unfolding new_cache
empty-Reaches = created 2 (nanoseconds 60) 20 false refl

set_a :
    set_key unmarshalled 1 0 (97 ∷ []) (eight_bytes 1) (nanoseconds 0) empty_cache ≡ some one_entry
unfolding set_key put_entry find_element lookup make_room is_over push_front new_entry count_set
    insert expiry effective_ttl estimate_size increment
set_a = refl

set_b :
    set_key unmarshalled 1 0 (98 ∷ []) (eight_bytes 2) (nanoseconds 0) one_entry ≡ some full_cache
unfolding set_key put_entry find_element lookup make_room is_over push_front new_entry count_set
    insert expiry effective_ttl estimate_size increment str_eq
set_b = refl

full-Reaches : Reaches unmarshalled full_cache
full-Reaches =
    then_step
      (then_step empty-Reaches (was_set 1 0 (97 ∷ []) (eight_bytes 1) (nanoseconds 0) set_a))
      (was_set 1 0 (98 ∷ []) (eight_bytes 2) (nanoseconds 0) set_b)

Reaches-IsValid_example : IsValid full_cache
Reaches-IsValid_example = Reaches-IsValid unmarshalled full-Reaches

full-IsValid : IsValid full_cache
full-IsValid = Reaches-IsValid unmarshalled full-Reaches

-- Evicting "a" from the full cache.
abbrev b_only : LruCache ℕ
b_only = record full_cache {
  items = (98 ∷ [], 1) ∷ [];
  evict_list = (1, sample_entry (98 ∷ []) 2) ∷ [];
  stats = record { hits = 0; misses = 0; sets = 2; deletes = 0; evictions = 1; entry_count = 1 };
  current_size = 8;
}

evict_a : make_room 2 8 full_cache ≡ some b_only
unfolding make_room is_over evict_oldest remove_element back remove delete str_eq increment called
evict_a = refl

make_room-KeepsRecent_example : KeepsRecent 8 full_cache b_only
make_room-KeepsRecent_example = make_room-KeepsRecent 2 8 full_cache full-IsValid evict_a

-- A value of 21 bytes, where 20 are allowed.
set_key-returns_iff_example :
    ((fuel : ℕ) × (c' : LruCache ℕ) × (set_key unmarshalled fuel 5
          (99 ∷ [])
          (text (
            1 ∷ 1 ∷ 1 ∷ 1 ∷ 1 ∷ 1 ∷ 1 ∷ 1 ∷ 1 ∷ 1 ∷ 1 ∷ 1 ∷ 1 ∷ 1 ∷ 1 ∷ 1 ∷ 1 ∷ 1 ∷ 1 ∷ 1 ∷ 1 ∷ []))
          (nanoseconds 0)
          full_cache
        ≡ some c'))
    ↔ Fits 21 full_cache
unfolding find_element lookup str_eq estimate_size
set_key-returns_iff_example =
    set_key-returns_iff unmarshalled 5 (99 ∷ []) _ (nanoseconds 0) full_cache full-IsValid refl

get-set_key_example : (get 30 (98 ∷ []) full_cache).0 ≡ some (eight_bytes 2)
get-set_key_example =
    get-set_key unmarshalled 1 0 30 (98 ∷ []) (eight_bytes 2) (nanoseconds 0) one_entry full_cache
      (Reaches-IsValid unmarshalled
        (then_step empty-Reaches (was_set 1 0 (97 ∷ []) (eight_bytes 1) (nanoseconds 0) set_a)))
      set_b

find_element-delete_key_example :
    find_element (98 ∷ []) (delete_key (97 ∷ []) full_cache) ≡ some (1, sample_entry (98 ∷ []) 2)
unfolding find_element lookup str_eq entry_of
find_element-delete_key_example =
    find_element-delete_key (97 ∷ []) (98 ∷ []) full_cache full-IsValid
