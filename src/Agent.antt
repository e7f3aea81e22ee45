-- ===== src/Agent.antt =====
-- crates/ciacola-core/src/agent.rs: an agent's definition and one exchange with its provider.
pub mod Definition
pub mod Exchange
pub mod Prompt
pub mod Intent
pub mod Run
