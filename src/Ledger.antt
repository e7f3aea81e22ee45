-- ===== src/Ledger.antt =====
-- crates/ciacola-core/src/ledger.rs: agents and turns.
pub mod Rows
pub mod Transitions
pub mod Turns
pub mod Agents
pub mod Prune
pub mod Operations
pub mod Writes
pub mod Trace
pub mod History
pub mod Validity
pub mod Once
pub mod Interruption
pub mod Identity
pub mod Loyalty
pub mod Tests
