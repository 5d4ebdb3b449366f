-- ===== src/Kernel.antt =====
-- crates/kernel: the content model, the AI2AI envelope and the access policies.
pub mod Policy
pub mod Content
pub mod Ai2Ai
pub mod Samples
mod Tests
