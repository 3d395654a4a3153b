-- ===== src/Ipc.antt =====
-- crates/ipc/src/lib.rs: framing, the proof of identity, and the client's calls.
mod Tests
pub mod Frame
pub mod Hex
pub mod Envelope
pub mod Client
