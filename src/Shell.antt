-- ===== src/Shell.antt =====
-- The shell (src/main.c): a line of input, and what each command does to the runtimes.
pub mod Input
pub mod Args
pub mod Balance
pub mod Kill
pub mod Commands
