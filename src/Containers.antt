-- ===== src/Containers.antt =====
-- internal/infrastructure/container: the order in which containers are handled.
pub mod Compose
pub mod Resolve
pub mod Client
pub mod Fleet
pub mod Labels
