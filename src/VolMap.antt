-- ===== src/VolMap.antt =====
-- controller-utils/v2p-map.c: which blocks of the disk hold the blocks of each volume.
pub mod Defs
pub mod Apart
pub mod Injective
pub mod Update
pub mod Tests
