-- ===== src/Protocol.antt =====
-- crates/protocol/src/lib.rs: the messages between the daemon and its clients, their framing, and
-- the preview of a command. A child for each of these.
pub mod Types
pub mod Messages
pub mod Preview
pub mod Frames
pub mod Examples
