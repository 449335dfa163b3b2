-- ===== src/Cache.antt =====
-- pkg/cache: the LRU cache.
pub mod Entry
pub mod Lru
pub mod Keys
pub mod Valid
pub mod Ranging
pub mod Preserved
pub mod Methods
pub mod Reachable
pub mod Room
pub mod Order
pub mod Lookup
