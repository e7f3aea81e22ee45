-- ===== src/Ledger/Validity.antt =====
-- crates/ciacola-core/src/ledger.rs: every operation keeps the ledger valid.
pub mod Turns
pub mod Bills
pub mod Agents
pub mod Accounts
pub mod Settlement
pub mod Roster
pub mod Kept
