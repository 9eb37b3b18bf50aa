-- ===== src/ContentDedup.antt =====
-- contentdedup/contentdedup-API.c: how many copies of each content the caches hold.
pub mod Defs
pub mod Bag
pub mod Tracks
pub mod Tests
