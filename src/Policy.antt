-- ===== src/Policy.antt =====
-- crates/policy/src/lib.rs: the policy, and the decision on one request.
pub mod Libs
pub mod Rules
pub mod Mask
pub mod Secrets
pub mod Config
pub mod Evaluate
pub mod Canonical
pub mod Fingerprint
