-- ===== src/Daemon.antt =====
-- crates/core/src/daemon.rs: the state of the Core service and the requests that it answers.
mod Tests
pub mod State
pub mod StateFile
pub mod Hash
pub mod Install
pub mod Installed
pub mod Plan
pub mod Token
pub mod Handlers
pub mod Network
pub mod RateLimit
pub mod Logs
pub mod Control
pub mod Router
