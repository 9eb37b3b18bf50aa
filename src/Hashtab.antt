-- ===== src/Hashtab.antt =====
-- utils/uhashtab.c: the chained hash table that every lookup table of the program is built on.
-- `Defs` has the types and the operations; the other children prove what clients rely on.
pub mod Defs
pub mod Order
pub mod Chain
pub mod Table
pub mod Slot
pub mod Ops
pub mod Status
pub mod Map
pub mod Api
pub mod Tests
