-- ===== src/Storage/Guarantees.antt =====
-- What the callers of crates/storage-sqlite/src/lib.rs rely on, over every sequence of calls.
pub mod Kept
pub mod Shown
pub mod Delivery
pub mod Published
pub mod NoConflict
pub mod Conflict
pub mod Race
pub mod Order
pub mod Listing
