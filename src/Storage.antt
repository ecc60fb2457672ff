-- ===== src/Storage.antt =====
-- The database (internal/storage/repository.go): its tables, the statements and the queries.
pub mod Connection
pub mod Select
pub mod Tables
pub mod Queries
pub mod Services
mod Examples
