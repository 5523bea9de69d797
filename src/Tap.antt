-- ===== src/Tap.antt =====
-- The storage thread: crates/cli/src/tap.rs.
pub mod Pending
pub mod State
pub mod Loop
pub mod Session
