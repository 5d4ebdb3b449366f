-- ===== src/Kernel/Content.antt =====
-- crates/kernel/src/content.rs: the portable content model. A `DateTime` is a number of
-- nanoseconds, and a JSON value is the text that it is written as.
mod Errors
mod Layers
pub mod Validation
pub mod Hash
pub mod Summary
pub mod Document
pub use Errors.*
pub use Layers.*
