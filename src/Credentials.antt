-- ===== src/Credentials.antt =====
-- internal/infrastructure/credential: the generator of new values.
pub mod Generator
pub mod MySql
pub mod Postgres
pub mod Redis
pub mod Programs
pub mod Registry
