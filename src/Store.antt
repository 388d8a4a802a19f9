-- ===== src/Store.antt =====
-- internal/store/store.go: the journal, a chain of records that are hashed one over the other.
pub mod Json
pub mod Journal
pub mod Chain
pub mod Written
pub mod Tamper
mod Tests
