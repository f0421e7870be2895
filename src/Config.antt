-- ===== src/Config.antt =====
-- crates/config/src/lib.rs and crates/config/src/permissions.rs: the configuration file, and the
-- checks that it passes before it is used.
pub mod Types
pub mod Paths
pub mod Validate
pub mod Store
pub mod Examples
