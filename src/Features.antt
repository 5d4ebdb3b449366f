-- ===== src/Features.antt =====
-- features/*: optional components behind the kernel's ports.
pub mod Rbac
pub mod Comments
pub mod ExternalAuth
pub mod Monetization
mod Tests
