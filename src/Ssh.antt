-- ===== src/Ssh.antt =====
-- crates/ssh/src/lib.rs: the command line that is sent to the remote host, and what comes back on a
-- channel.
pub mod Command
pub mod Shell
pub mod Channel
pub mod Transfer
pub mod Examples
