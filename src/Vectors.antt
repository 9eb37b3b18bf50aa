-- ===== src/Vectors.antt =====
-- utils/vector16.c, utils/vector32.c and utils/vector64.c: arrays of pointers that grow when an element is set.
pub mod Defs
pub mod Laws
pub mod Wide
pub mod Tests
