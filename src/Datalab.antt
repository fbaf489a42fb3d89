-- ===== src/Datalab.antt =====
-- The puzzles of datalab-handout/bits.c and the functions that test them, datalab-handout/tests.c.
pub mod Integer
pub mod Float
pub mod Reference
pub mod Value
pub mod Power
pub mod Truncate
mod Tests
pub mod Agree
pub mod Compare
pub mod Width
