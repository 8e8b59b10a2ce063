-- ===== src/Tests.antt =====
-- The theorems applied at concrete inputs, and cases of the repository's own tests.
mod Fixtures
mod Names
mod Proxy
mod Server
mod Containers
mod Control
mod Tunnels
mod Shared
mod Again
mod Files
mod Ensured
mod Rounds
mod Forward
mod Labels
