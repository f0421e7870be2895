-- ===== src/Mcp.antt =====
-- apps/mcp-server/src/main.rs: the MCP server, which turns tool calls into requests to the daemon and
-- shapes its responses.
pub mod Decoders
pub mod Chunks
pub mod Render
pub mod Json
pub mod Arguments
pub mod Shape
pub mod Call
pub mod Server
pub mod Examples
pub mod CallExamples
