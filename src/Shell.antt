-- ===== src/Shell.antt =====
-- The tiny shell with job control, shlab-handout/tsh.c.
pub mod Jobs
pub mod Parse
pub mod Signals
pub mod Command
pub mod System
mod Tests
