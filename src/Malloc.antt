-- ===== src/Malloc.antt =====
-- The allocators of malloclab-handout: the memory that they run in (memlib.c), the tags of their blocks,
-- and the versions with an implicit list (mm_blk.c), an explicit list (mm_list.c) and segregated lists
-- (mm.c, mm_right.c).
pub mod Memory
pub mod Bytes
pub mod Tags
pub mod Tiles
pub mod Extents
pub mod Links
pub mod Implicit
pub mod Explicit
pub mod Segregated
pub mod BestFit
pub mod Driver
