-- ===== src/Inject.antt =====
-- crates/policy/src/inject.rs: the fault injector, its configuration and its random numbers.
pub mod Float
pub mod Rng
pub mod Config
pub mod Injector
