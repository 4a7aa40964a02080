-- ===== src/Feedback.antt =====
-- crates/lsf-feedback: what became of a test, and who is told.
pub mod Outcome
pub mod Floats
pub mod Arm
