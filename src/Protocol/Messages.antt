-- ===== src/Protocol/Messages.antt =====
-- crates/protocol/src/lib.rs: requests, responses and error payloads. The text of an error message
-- is kept as its format string and arguments.
use Prim.Native.String.{String}
use ai_ssh.Base.{ℕ, Bool, true, false, Option, List, []}
use ai_ssh.Base.Result.{Result}
use ai_ssh.Base.Text.{Text, codes}
use ai_ssh.Protocol.Types.{
  TargetSummary, SessionInfo, CommandInfo, CommandSummary, TerminalEvent, FileStatInfo,
  FileContentInfo, FileOutcome, EventProgress,
}

-- A message: the format string and what is put in its places. A message that another error carries
-- whole has the format string "{}".
pub record Message : Type 0 where
  pub template : String
  pub arguments : List Text

pub record ErrorPayload : Type 0 where
  pub code : Text
  pub message : Message
  pub retryable : Bool

-- `ErrorPayload::new` with a literal code and a literal message.
abbrev pub error : String → String → ErrorPayload
error code message = record {
  code = codes code;
  message = record { template = message; arguments = [] };
  retryable = false;
}

-- `ErrorPayload::new` with a formatted message.
abbrev pub error_with : String → String → List Text → ErrorPayload
error_with code template arguments = record {
  code = codes code;
  message = record { template = template; arguments = arguments };
  retryable = false;
}

-- `ErrorPayload::retryable`.
abbrev pub retryable : ErrorPayload → ErrorPayload
retryable e = record e { retryable = true }

-- `Result<T, ErrorPayload>`.
abbrev pub ApiResult : Type 0 → Type 0
ApiResult A = Result ErrorPayload A

pub data Request : Type 0 where
  handshake : (protocol_version : ℕ) (client_name : Text) → Request
  targets_list : Request
  sessions_list : (include_history : Bool) → Request
  session_create : (target_id purpose : Text) → Request
  session_status : (session_id : Text) → Request
  session_close : (session_id : Text) → Request
  exec_start exec_background :
      (session_id command : Text) (cwd : Option Text) (env : List (Text × Text))
      (timeout_seconds : Option ℕ)
      → Request
  command_poll : (command_id : Text) (after_sequence max_bytes wait_seconds : ℕ) → Request
  command_cancel : (command_id : Text) → Request
  commands_list : (session_id : Option Text) (include_finished : Bool) (limit : ℕ) → Request
  shell_open : (session_id : Text) (cols rows : ℕ) (term : Text) → Request
  shell_write : (session_id : Text) (bytes : List ℕ) → Request
  shell_read : (session_id : Text) (after_sequence max_bytes wait_seconds : ℕ) → Request
  shell_resize : (session_id : Text) (cols rows : ℕ) → Request
  shell_close : (session_id : Text) → Request
  file_stat : (session_id remote_path : Text) (hash : Bool) → Request
  file_read : (session_id remote_path : Text) (max_bytes : ℕ) (sudo : Bool) → Request
  file_write :
      (session_id remote_path : Text) (bytes : List ℕ) (append create_dirs : Bool) (mode : Option ℕ)
      (sudo if_changed : Bool)
      → Request
  file_upload :
      (session_id local_path remote_path : Text) (create_dirs : Bool) (mode : Option ℕ)
      (verify : Bool)
      → Request
  file_download :
      (session_id remote_path local_path : Text) (overwrite create_dirs verify : Bool) → Request
  file_mkdir : (session_id remote_path : Text) (parents : Bool) (mode : Option ℕ) → Request
  reload_config daemon_shutdown : Request

pub data ResponseData : Type 0 where
  handshake : (protocol_version : ℕ) (daemon_version : Text) → ResponseData
  targets : List TargetSummary → ResponseData
  sessions : List SessionInfo → ResponseData
  session : SessionInfo → ResponseData
  command : CommandInfo → ResponseData
  commands : List CommandSummary → ResponseData
  file_stat : FileStatInfo → ResponseData
  file_content : FileContentInfo → ResponseData
  file_outcome : FileOutcome → ResponseData
  events :
      (command : Option CommandInfo) (commands : List CommandInfo) (events : List TerminalEvent)
      (next_sequence : ℕ) (has_more delivery_complete : Bool) (warnings : List String)
      (progress : EventProgress)
      → ResponseData
  ack : ResponseData

pub record Response : Type 0 where
  pub request_id : ℕ
  pub result : ApiResult ResponseData

pub record RequestFrame : Type 0 where
  pub request_id : ℕ
  pub request : Request
