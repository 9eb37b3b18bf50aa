-- ===== src/IoDedup.antt =====
-- iodedup/ and its callers in runtime-fixed/ioruntime.c: which block holds which content, kept as a map from
-- blocks to deduplication IDs, and from IDs and digests to the blocks that share the content.
pub mod P2d
pub mod D2pv
pub mod Defs
pub mod Ops
pub mod Blocks
pub mod Sound
pub mod Fresh
pub mod Entries
pub mod Consistent
pub mod Recycle
pub mod Entry
pub mod Trim
pub mod Resume
pub mod Note
pub mod Refine
pub mod Reads
pub mod Errors
pub mod Scan
pub mod Free
pub mod Tests
