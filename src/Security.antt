-- ===== src/Security.antt =====
-- crates/cli/src/security.rs: the decision on one client->server frame. Its splitter is
-- `Framing.Framed`.
pub mod Decide
