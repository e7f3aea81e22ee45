-- ===== src/Limits.antt =====
-- crates/ciacola-core/src/limits.rs: admission circuit breakers and the per-turn protection.
pub mod Config
pub mod Accounting
pub mod Evaluate
pub mod Protection
pub mod Tests
