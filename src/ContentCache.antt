-- ===== src/ContentCache.antt =====
-- content-cache/contentcache.c with its callers in iodedup/ioserveio.c and runtime-fixed/ioruntime.c: the cache of
-- contents that reads of deduplicated blocks are served from.
pub mod Modes
pub mod Defs
pub mod Own
pub mod Init
pub mod Served
pub mod Reads
pub mod Tests
