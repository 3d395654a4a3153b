-- ===== src/Package.antt =====
-- crates/package/src/lib.rs: plugins, their manifests, and the names in an archive.
mod Tests
pub mod Plugin
pub mod Identifiers
pub mod Domains
pub mod Paths
pub mod Archive
pub mod Manifest
