-- ===== src/LogStore.antt =====
-- The event log of crates/core/src/log_store.rs: an active file of JSON lines and its archives.
pub mod Record
pub mod Lines
pub mod Files
pub mod Store
pub mod Sort
mod Tests
