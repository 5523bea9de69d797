-- ===== src/Storage.antt =====
-- The recorder's database: crates/storage/src/lib.rs.
pub mod Sql
pub mod Fingerprints
pub mod Database
pub mod Prune
