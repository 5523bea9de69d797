-- ===== src/Clients.antt =====
-- The rewriting of the configuration files of MCP clients: crates/cli/src/clients.rs.
pub mod Table
pub mod Route
pub mod Entry
pub mod Document
pub mod Files
pub mod Run
