-- ===== src/Db.antt =====
-- The server's database package (internal/db).
pub mod Helpers
pub mod Models
pub mod Joins
pub mod Gorm
pub mod Scopes
pub mod Documents
pub mod Relatives
pub mod Processors
