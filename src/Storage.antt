-- ===== src/Storage.antt =====
-- crates/storage/src/lib.rs: the SQLite database as three tables of rows.
pub mod Tables
pub mod Names
pub mod Sessions
pub mod Commands
pub mod Events
pub mod Accounts
pub mod Examples
