-- ===== src/Protocol/Types.antt =====
-- crates/protocol/src/lib.rs: constants, statuses and the records that describe sessions, commands,
-- events and files. A `DateTime<Utc>` is a number of nanoseconds; `u64`, `usize`, `u32` and `u16`
-- fields are numbers.
use ai_ssh.Base.{ℕ, ◌*◌, Bool, true, false, Option, List}
use ai_ssh.Base.Text.{Text}

abbrev pub protocol_version : ℕ
protocol_version = 3

abbrev pub max_frame_bytes : ℕ
max_frame_bytes = 8 * 1024 * 1024

abbrev pub max_wait_seconds : ℕ
max_wait_seconds = 300

abbrev pub command_preview_chars : ℕ
command_preview_chars = 200

pub data SessionStatus : Type 0 where
  connecting ready exec_running pty_open idle disconnected interrupted closed failed : SessionStatus

pub data CommandStatus : Type 0 where
  running completed failed timed_out cancelled interrupted : CommandStatus

pub data StreamKind : Type 0 where
  stdout stderr pty system : StreamKind

pub data FileKind : Type 0 where
  file directory symlink other : FileKind

-- `status == SessionStatus::Closed`.
unfoldable pub is_closed : SessionStatus → Bool
is_closed SessionStatus.closed = true
is_closed _ = false

-- `status == CommandStatus::Running`.
unfoldable pub is_running : CommandStatus → Bool
is_running CommandStatus.running = true
is_running _ = false

-- `status == CommandStatus::Interrupted`.
unfoldable pub is_interrupted : CommandStatus → Bool
is_interrupted CommandStatus.interrupted = true
is_interrupted _ = false

pub record TargetSummary : Type 0 where
  pub id : Text
  pub name : Text
  pub host : Text
  pub port : ℕ
  pub username : Text
  pub host_verification : Bool

pub record SessionInfo : Type 0 where
  pub id : Text
  pub target_id : Text
  pub target_name : Text
  pub purpose : Text
  pub client_name : Text
  pub status : SessionStatus
  pub current_command : Option Text
  pub last_exit_code : Option ℕ
  pub recording_truncated : Bool
  pub host_fingerprint : Option Text
  pub created_at : ℕ
  pub updated_at : ℕ
  pub closed_at : Option ℕ

pub record CommandInfo : Type 0 where
  pub id : Text
  pub session_id : Text
  pub command : Text
  pub status : CommandStatus
  pub exit_code : Option ℕ
  pub started_at : ℕ
  pub finished_at : Option ℕ
  pub last_sequence : ℕ
  pub recording_truncated : Bool
  pub output_bytes : ℕ

pub record CommandSummary : Type 0 where
  pub id : Text
  pub session_id : Text
  pub command_preview : Text
  pub status : CommandStatus
  pub exit_code : Option ℕ
  pub started_at : ℕ
  pub finished_at : Option ℕ
  pub last_sequence : ℕ
  pub output_bytes : ℕ
  pub recording_truncated : Bool
  pub running_for_seconds : Option ℕ
  pub seconds_since_last_output : Option ℕ

-- The payload is its bytes.
pub record TerminalEvent : Type 0 where
  pub session_id : Text
  pub command_id : Option Text
  pub sequence : ℕ
  pub timestamp : ℕ
  pub stream : StreamKind
  pub payload : List ℕ
  pub persisted : Bool

pub record FileStatInfo : Type 0 where
  pub path : Text
  pub kind : FileKind
  pub size : ℕ
  pub mode : Option ℕ
  pub uid : Option ℕ
  pub gid : Option ℕ
  pub user : Option Text
  pub group : Option Text
  pub modified_at : Option ℕ
  pub sha256 : Option Text

pub record FileContentInfo : Type 0 where
  pub path : Text
  pub size : ℕ
  pub bytes_returned : ℕ
  pub truncated : Bool
  pub is_utf8 : Bool
  pub sha256 : Option Text
  pub contents : List ℕ

pub record FileOutcome : Type 0 where
  pub path : Text
  pub bytes : ℕ
  pub sha256 : Option Text
  pub verified : Bool
  pub changed : Bool
  pub mode : Option ℕ
  pub local_path : Option Text

pub record EventProgress : Type 0 where
  pub seconds_since_last_output : Option ℕ
  pub live_tail_dropped : Bool
  pub timed_out : Bool
  pub waited_seconds : ℕ
