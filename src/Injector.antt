-- ===== src/Injector.antt =====
-- crates/injector: the archive that a launched application runs from.
mod Tests
pub mod Asar
