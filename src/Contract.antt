-- ===== src/Contract.antt =====
-- crates/ciacola-agent: the provider contract of which the ledger, the admission policy and the
-- executor are clients.
pub mod Outcome
pub mod Intent
pub mod Capability
pub mod Failure
pub mod Registry
pub mod Tests
