-- ===== src/World.antt =====
-- What the program does to the world and what it reads back, and programs over that.
mod Actions
mod Monad
pub use Actions.*
pub use Monad.*
