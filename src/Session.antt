-- ===== src/Session.antt =====
-- crates/session/src/lib.rs: sessions, their commands and shells, and the pages of output.
pub mod Errors
pub mod Runtime
pub mod Record
pub mod Page
pub mod Poll
pub mod Connect
pub mod Exec
pub mod Shell
pub mod Lifecycle
pub mod Files
pub mod Evolves
pub mod Steps
pub mod Examples
pub mod LifecycleExamples
pub mod CancelExamples
pub mod FilesExamples
pub mod TransferExamples
pub mod Helpers
pub mod Transfers
