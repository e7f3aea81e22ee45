-- ===== src/RepoWorker/Delegation.antt =====
-- crates/ciacola-core/src/delegation.rs and crates/ciacola-repo-worker/src/delegation.rs: what a manager
-- may be delegated, and the check of an assignment before it is.
pub mod Policy
pub mod Lineage
pub mod Preflight
pub mod Ancestors
pub mod Descent
pub mod Owners
pub mod Eligible
mod Tests
