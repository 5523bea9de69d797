-- ===== src/Command.antt =====
-- The commands of crates/cli/src.
pub mod Units
pub mod Prune
