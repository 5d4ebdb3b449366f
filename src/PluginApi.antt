-- ===== src/PluginApi.antt =====
-- crates/plugin-api: what the host agrees on with its plugins and its installation.
pub mod Names
pub mod Json
pub mod Records
pub mod Validation
pub mod Lock
pub mod Intent
mod Tests
