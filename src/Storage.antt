-- ===== src/Storage.antt =====
-- crates/storage-sqlite/src/lib.rs: the document lifecycle over the tables of the database.
pub mod Records
pub mod Queries
pub mod Revisions
pub mod Documents
pub mod Publish
pub mod Load
pub mod Steps
pub mod Simulation
pub mod Invariant
pub mod Proposals
pub mod Repository
pub mod Requests
pub mod Guarantees
pub mod Journal
pub mod Css
pub mod Normal
pub mod Categories
pub mod Sessions
mod Tests
