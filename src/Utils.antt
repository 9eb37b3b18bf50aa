-- ===== src/Utils.antt =====
-- utils/utils.c: the numbers that the tables and the request code compute with.
pub mod Defs
pub mod Prime
pub mod Tests
