-- ===== src/Runtime.antt =====
-- The runtimes (src/runtime.c): the time that a program gets, a turn of a program, and the thread that
-- gives the programs of its list a turn each.
pub mod Keeps
pub mod Clock
pub mod Slice
pub mod Turn
pub mod Sleep
pub mod Lines
pub mod Thread
