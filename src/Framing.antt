-- ===== src/Framing.antt =====
-- Newline framing, three times: `LineSplitter` (crates/proxy-core/src/lib.rs) and `SseSplitter`
-- (crates/proxy-core/src/sse.rs) on the tap path, and `FramedStream` (crates/cli/src/security.rs)
-- on the forwarding path. All three have the same loop header, which is `Lines`.
pub mod Lines
pub mod Line
pub mod Framed
pub mod Sse
