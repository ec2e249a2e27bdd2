-- ===== src/Database.antt =====
-- The package database: database/cache.go, database/dbadapter.go and database/database.go.
mod Tests
pub mod Cache
pub mod ConfigCache
pub mod Retry
pub mod Connection
pub mod Codec
pub mod Session
