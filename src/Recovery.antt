-- ===== src/Recovery.antt =====
-- crates/ciacola-core/src/recover.rs: what a restart owes the ledger.
pub mod Orphans
pub mod Recover
pub mod Order
pub mod Swept
pub mod Tests
