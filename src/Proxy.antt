-- ===== src/Proxy.antt =====
-- The two pumps of a wrapped session: crates/cli/src/main.rs.
pub mod World
pub mod Reads
pub mod Faults
pub mod ClientPump
pub mod ServerPump
pub mod Recording
