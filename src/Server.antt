-- ===== src/Server.antt =====
-- apps/server: admission control and the coherence of the response cache.
pub mod Admission
pub mod Cache
mod Tests
pub mod Stylesheet
