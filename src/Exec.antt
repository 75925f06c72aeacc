-- ===== src/Exec.antt =====
-- The execution of a line (src/exec.c).
pub mod Values
pub mod Machine
pub mod Handlers
pub mod Branch
pub mod Lines
pub mod Keeps
