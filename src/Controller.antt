-- ===== src/Controller.antt =====
-- pkg/controller/controller.go: one cloud controller manager for each kind cluster.
pub mod Connect
pub mod Cancel
pub mod Rounds
pub mod Kept
pub mod Added
pub mod Once
pub mod First
pub mod Cleanup
pub mod System
pub mod Starting
pub mod Dropped
pub mod Returns
pub mod Emptied
