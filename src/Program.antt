-- ===== src/Program.antt =====
-- A program and its state (src/program.h, src/program.c), and its error messages (src/error.c).
mod Defs
mod Errors
pub mod Init
pub use Defs.*
pub use Errors.*
