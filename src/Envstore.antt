-- ===== src/Envstore.antt =====
-- internal/infrastructure/envstore: reading, changing and replacing .env files.
pub mod Line
pub mod File
pub mod Disk
pub mod Store
