-- ===== src/Lib.antt =====
-- AI_SSH keeps SSH sessions in a daemon for clients that come and go. This library models the parts
-- of it that decide what a client is told, and proves what they promise.
--
-- The parts and how they interact. A client sends requests in frames (crates/protocol) to the daemon,
-- which passes them to the session manager (crates/session). The manager dials hosts and runs commands
-- and shells over SSH (crates/ssh), checks hosts and keys against the configuration (crates/config),
-- and records all output in SQLite (crates/storage). A client reads output by polling pages from a
-- cursor, and each page comes from storage first and then from a buffer of what was not stored. The MCP
-- server (apps/mcp-server) is such a client: it makes requests of the tool calls of a model and shapes
-- the responses of the daemon (apps/daemon) for it.
--
--   Base      shared names: tests, lists on native numbers, texts as code points, UTF-8, and the results
--             of fallible code
--   Protocol  crates/protocol/src/lib.rs: Types and Messages are its records and enumerations, Preview
--             is command_preview, Frames is write_frame and read_frame, on one value and on several
--   Storage   crates/storage/src/lib.rs: Tables is the database as lists of rows, Sessions, Commands and
--             Events are the statements on each table, Names the text of enumerations, Accounts the
--             recording limit, Events/Follow a client that reads on from each cursor
--   Config    crates/config/src/lib.rs and permissions.rs: Paths, Validate for Config::validate, and
--             Store for load, save_atomic and ensure_exists
--   Ssh       crates/ssh/src/lib.rs: Command is build_command and shell_quote, Shell an independent
--             reader of POSIX words, Channel is ExecChannel::next and collect; Transfer is
--             crates/ssh/src/transfer.rs: staged writes, Directories for make_dir, Streams for uploads
--             and downloads
--   Session   crates/session/src/lib.rs: Runtime is the state, Record is record, Page and Poll are
--             command_poll, shell_read and what they call, Connect is connection_for, Exec is start_exec
--             and run_exec, Exec/Cancel what command_cancel makes of a command, Shell the PTY
--             operations, Files file_write and local_path_for, Helpers the commands that run with sudo,
--             Transfers the other operations on files, Lifecycle the other operations of the manager,
--             Steps the relation of all these steps, Evolves and its children what they keep
--   Daemon    apps/daemon/src/main.rs: Service is the dispatch of a request to the operations of the
--             manager, which are an interface there, Serve is serve_client, and Manager fills the
--             interface with the operations of Session
--   Mcp       apps/mcp-server/src/main.rs: Arguments is Shaping::parse and tool_request, Call is
--             daemon_call, Decoders is decode_event and the decoders, Chunks is chunks_from, Shape is
--             public_json, Render the output in the text channel, Server the loop of main; Json is
--             what they use of serde_json and base64
--
-- How the state is modelled. A session's runtime and the database are passed from operation to
-- operation; the locks and atomics of the source are plain fields. An operation of the manager is one
-- step, also where the source waits for the network inside it, so that what another operation does
-- during such a wait is not modelled; the background tasks run_exec and run_pty are cut at their waits,
-- and their steps come between any others. Clocks, new UUIDs and what the network answers are
-- arguments. Numbers are natural; sums that saturate or wrap in the source are written out, and
-- sequence numbers, which a u64 never exhausts, are not bounded.
--
-- Fuel and bounds. The polls of a client have fuel, of which one more than there are events is
-- enough. The recursion of make_dir over the parents has fuel, for which one more than the
-- characters of the path is enough, and the loop of serve_client has fuel, for which one turn more than
-- the bytes of the stream is enough. A poll waits for a list of wake-ups, and the list ends at the
-- deadline. The rounds of an upload or a download are a list, behind which nothing is read. Numbers are
-- written with 64 digits at most, which any u64 fits. The loops over attempts, rows, events and lines
-- are structural.
--
-- What is not modelled: MessagePack is a parameter (Protocol.Frames.Codec) with the law that a value is
-- decoded again as a hypothesis, and JSON and base64 are one (Mcp.Json); russh, SQLite's failures,
-- TOML and the disk are arguments, and so is what the network answers; the lock of the decoders, which
-- is never poisoned; Windows; the start of the processes, logging and the accepting of connections; the
-- header lines of the text channel and the list of tools of the MCP server; the IPC transports and the
-- desktop application. The MCP server sees the daemon as a function of the bytes written to it, so that
-- one connection is served without others beside it.
pub mod Base
pub mod Protocol
pub mod Storage
pub mod Config
pub mod Ssh
pub mod Session
pub mod Daemon
pub mod Mcp
