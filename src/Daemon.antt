-- ===== src/Daemon.antt =====
-- apps/daemon/src/main.rs: the daemon, which answers the frames of its clients with the operations of
-- the session manager.
pub mod Service
pub mod Serve
pub mod Manager
pub mod Examples
pub mod ManagerExamples
