-- ===== src/Bootcamp.antt =====
-- The programs of cbootcamp.
pub mod Queue
