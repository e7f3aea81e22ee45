-- ===== src/Admission.antt =====
-- crates/ciacola-core/src/admission.rs: the one boundary where new paid work starts.
pub mod Window
pub mod Report
pub mod Admit
pub mod Tests
