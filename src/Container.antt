-- ===== src/Container.antt =====
-- pkg/container/container.go: the container runtime's command line.
mod Commands
pub mod Inspect
unfoldable pub use Commands.*
unfoldable pub use Inspect.*
