-- ===== src/Arc.antt =====
-- ARC-cache/arc.c and the object callbacks of content-cache/contentcache.c: the adaptive replacement
-- cache of contents. `Defs` has the types and the operations.
pub mod Defs
pub mod Adapt
pub mod Balance
pub mod Moves
pub mod Lists
pub mod Inv
pub mod Steps
pub mod Drops
pub mod Fit
pub mod Pull
pub mod Hand
pub mod Enter
pub mod Target
pub mod Ops
pub mod Added
pub mod Correct
pub mod Destroy
pub mod Keeps
pub mod Retain
pub mod Kept
pub mod Tests
