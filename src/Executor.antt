-- ===== src/Executor.antt =====
-- crates/ciacola-core/src/exec.rs and polling.rs: how a queued turn comes to run.
pub mod Scope
pub mod Load
pub mod Deliver
pub mod Settled
pub mod Landed
pub mod Family
pub mod System
mod Tests
