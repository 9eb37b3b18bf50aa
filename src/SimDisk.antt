-- ===== src/SimDisk.antt =====
-- simdisk-runtime/, blkID-hashtab/ and content-simfile.c: a file that stands for the disk of a replay.
pub mod Key
pub mod File
pub mod Defs
pub mod Slots
pub mod Sound
pub mod Disk
pub mod Replay
pub mod Tests
