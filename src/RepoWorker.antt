-- ===== src/RepoWorker.antt =====
-- crates/ciacola-repo-worker: assignments of issues to agents, each with a branch and a worktree.
pub mod Assignment
pub mod Statements
pub mod Finish
pub mod Reserve
pub mod Requests
pub mod Journey
pub mod Guarded
pub mod Indexes
pub mod Busy
pub mod Names
pub mod Delegation
mod Tests
