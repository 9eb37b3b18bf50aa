-- ===== src/Confided.antt =====
-- confided/ and runtime-fixed/fruntime.c: deduplication of blocks by content, above the blocks of the volumes.
pub mod Leaders
pub mod Marks
pub mod V2f
pub mod Fixed
pub mod Defs
pub mod Ops
pub mod Lookup
pub mod View
pub mod Join
pub mod Cells
pub mod Leave
pub mod Mapped
pub mod Note
pub mod Drop
pub mod Reads
pub mod Tests
