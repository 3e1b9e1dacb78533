-- ===== src/Storage.antt =====
-- internal/storage/storage.go over the schema of migrations/0001_init.sql: each method runs its
-- SQL statement on tables that are lists of rows.
mod Schema
pub mod Devices
pub mod Events
pub mod Commands
pub mod Cipher
pub mod Connections
pub mod Reads
pub mod Migrations
pub use Schema.*
