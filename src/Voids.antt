-- ===== src/Voids.antt =====
-- The containers of libvoids (a git submodule, not in the repository) as interfaces: the operations
-- that simbly calls, with the documented behaviour that it relies on. Every definition that uses a
-- container takes it as a parameter. `Voids.Lists` has instances of the table and the buffer,
-- `Voids.Chain` one of the circular list.
mod Defs
pub mod Lists
pub mod Chain
pub use Defs.*
