-- ===== src/Lru.antt =====
-- LRU-cache/lru_cache.c and sector-cache/sectorcache.c: the cache of blocks by block number.
pub mod Uthash
pub mod Defs
pub mod Order
pub mod Sector
pub mod Replay
pub mod Tests
