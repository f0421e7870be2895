-- ===== src/Daemon/Service.antt =====
-- apps/daemon/src/main.rs: which operation of the manager answers a request, the body of the loop of
-- `serve_client`. The manager is an interface: a record with its operations on a state, whose
-- implementation are the modules of Session.
use Prim.Native.String.{String}
use ai_ssh.Base.{ℕ, Bool, true, false, not, List, [], ◌∷◌, Option, none, some}
use ai_ssh.Base.Tests.{◌==◌, if◌then◌else◌}
use ai_ssh.Base.Text.{Text, codes}
use ai_ssh.Base.Result.{ok, err}
use ai_ssh.Protocol.Types.{
  TargetSummary, SessionInfo, CommandInfo, CommandSummary, FileStatInfo, FileContentInfo,
  FileOutcome, protocol_version,
}
use ai_ssh.Protocol.Messages.{Request, ResponseData, ApiResult, error_with}
use ai_ssh.Session.Helpers.{decimal}
use ai_ssh.Session.Page.{PollPage, events_response}
use ai_ssh.Session.Poll.{ShellPage}

-- The operations of `SessionManager` that the daemon calls, on the manager's state.
pub record Service (S : Type 0) : Type 0 where
  pub targets : S → List TargetSummary
  pub sessions : (include_history : Bool) → S → ApiResult (List SessionInfo) × S
  pub create : (target_id purpose client_name : Text) → S → ApiResult SessionInfo × S
  pub status : (session_id : Text) → S → ApiResult SessionInfo × S
  pub close : (session_id : Text) → S → ApiResult (Unit {0}) × S
  pub exec_start :
      (session_id command : Text)
      → Option Text
      → List (Text × Text)
      → Option ℕ
      → S
      → ApiResult CommandInfo × S
  pub exec_background :
      (session_id command : Text)
      → Option Text
      → List (Text × Text)
      → Option ℕ
      → S
      → ApiResult CommandInfo × S
  pub command_poll :
      (command_id : Text) → (after max_bytes wait_seconds : ℕ) → S → ApiResult PollPage × S
  pub command_cancel : (command_id : Text) → S → ApiResult (Unit {0}) × S
  pub commands :
      Option Text
      → (include_finished : Bool) → (limit : ℕ) → S
      → ApiResult (List CommandSummary) × S
  pub shell_open :
      (session_id : Text) → (cols rows : ℕ) → (term : Text) → S → ApiResult SessionInfo × S
  pub shell_write : (session_id : Text) → List ℕ → S → ApiResult (Unit {0}) × S
  pub shell_read :
      (session_id : Text) → (after max_bytes wait_seconds : ℕ) → S → ApiResult ShellPage × S
  pub shell_resize : (session_id : Text) → (cols rows : ℕ) → S → ApiResult (Unit {0}) × S
  pub shell_close : (session_id : Text) → S → ApiResult (Unit {0}) × S
  pub file_stat : (session_id remote_path : Text) → (hash : Bool) → S → ApiResult FileStatInfo × S
  pub file_read :
      (session_id remote_path : Text)
      → (max_bytes : ℕ) → (sudo : Bool) → S
      → ApiResult FileContentInfo × S
  pub file_write :
      (session_id remote_path : Text)
      → List ℕ
      → (append create_dirs : Bool) → Option ℕ
      → (sudo if_changed : Bool) → S
      → ApiResult FileOutcome × S
  pub file_upload :
      (session_id local_path remote_path : Text)
      → (create_dirs : Bool) → Option ℕ
      → (verify : Bool) → S
      → ApiResult FileOutcome × S
  pub file_download :
      (session_id remote_path local_path : Text)
      → (overwrite create_dirs verify : Bool) → S
      → ApiResult FileOutcome × S
  pub file_mkdir :
      (session_id remote_path : Text) → (parents : Bool) → Option ℕ → S → ApiResult (Unit {0}) × S
  pub reload_config : S → ApiResult (Unit {0}) × S

-- A client's name and the manager's state, as one request leaves them, with the answer and whether the
-- daemon is to stop.
pub record Handled (S : Type 0) : Type 0 where
  pub result : ApiResult ResponseData
  pub client_name : Text
  pub state : S
  pub shutdown_requested : Bool

-- `CARGO_PKG_VERSION`.
abbrev pub daemon_version : String
daemon_version = "0.2.0"

-- `Result::map`.
abbrev pub map_ok : {A B : Type 0} → (A → B) → ApiResult A → ApiResult B
map_ok f (ok a) = ok (f a)
map_ok f (err e) = err e

abbrev pub ack : Unit {0} → ResponseData
ack _ = ResponseData.ack

-- The answer to `command_poll`: the command stands alone, not in the list of commands too.
abbrev pub poll_response : (after : ℕ) → PollPage → ResponseData
poll_response after page =
    events_response (some page.command) [] page.events after page.more page.warnings page.progress

-- The answer to `shell_read`.
abbrev pub shell_response : (after : ℕ) → ShellPage → ResponseData
shell_response after page =
    events_response none page.commands page.events after page.more [] page.progress

module _ {S : Type 0} (service : Service S) where
  -- What an operation answers.
  abbrev pub answered :
      {A : Type 0} → (A → ResponseData) → (client_name : Text) → ApiResult A × S → Handled S
  answered f client_name r = record {
    result = map_ok f r.0;
    client_name = client_name;
    state = r.1;
    shutdown_requested = false;
  }

  -- The handshake: the client gives its name if it speaks the daemon's version.
  unfoldable pub greet : (version : ℕ) → (name : Text) → (client_name : Text) → S → Handled S
  greet version name client_name s = record {
    result =
        if not (version == protocol_version)
        then err (
            error_with "PROTOCOL_MISMATCH" "daemon uses protocol {}, client requested {}"
              (decimal protocol_version ∷ decimal version ∷ []))
        else ok (ResponseData.handshake protocol_version (codes daemon_version));
    client_name = if not (version == protocol_version) then client_name else name;
    state = s;
    shutdown_requested = false;
  }

  unfoldable pub handle : Request → (client_name : Text) → S → Handled S
  handle (Request.handshake version name) client s = greet version name client s
  handle Request.targets_list client s =
      answered ResponseData.targets client (ok (service.targets s), s)
  handle (Request.sessions_list history) client s =
      answered ResponseData.sessions client (service.sessions history s)
  handle (Request.session_create target purpose) client s =
      answered ResponseData.session client (service.create target purpose client s)
  handle (Request.session_status id) client s =
      answered ResponseData.session client (service.status id s)
  handle (Request.session_close id) client s = answered ack client (service.close id s)
  handle (Request.exec_start id line cwd env timeout) client s =
      answered ResponseData.command client (service.exec_start id line cwd env timeout s)
  handle (Request.exec_background id line cwd env timeout) client s =
      answered ResponseData.command client (service.exec_background id line cwd env timeout s)
  handle (Request.command_poll id after max_bytes wait) client s =
      answered (poll_response after) client (service.command_poll id after max_bytes wait s)
  handle (Request.command_cancel id) client s = answered ack client (service.command_cancel id s)
  handle (Request.commands_list id finished limit) client s =
      answered ResponseData.commands client (service.commands id finished limit s)
  handle (Request.shell_open id cols rows term) client s =
      answered ResponseData.session client (service.shell_open id cols rows term s)
  handle (Request.shell_write id bytes) client s =
      answered ack client (service.shell_write id bytes s)
  handle (Request.shell_read id after max_bytes wait) client s =
      answered (shell_response after) client (service.shell_read id after max_bytes wait s)
  handle (Request.shell_resize id cols rows) client s =
      answered ack client (service.shell_resize id cols rows s)
  handle (Request.shell_close id) client s = answered ack client (service.shell_close id s)
  handle (Request.file_stat id path hash) client s =
      answered ResponseData.file_stat client (service.file_stat id path hash s)
  handle (Request.file_read id path max_bytes sudo) client s =
      answered ResponseData.file_content client (service.file_read id path max_bytes sudo s)
  handle (Request.file_write id path bytes append dirs mode sudo if_changed) client s =
      answered ResponseData.file_outcome client
        (service.file_write id path bytes append dirs mode sudo if_changed s)
  handle (Request.file_upload id local path dirs mode verify) client s =
      answered ResponseData.file_outcome client
        (service.file_upload id local path dirs mode verify s)
  handle (Request.file_download id path local overwrite dirs verify) client s =
      answered ResponseData.file_outcome client
        (service.file_download id path local overwrite dirs verify s)
  handle (Request.file_mkdir id path parents mode) client s =
      answered ack client (service.file_mkdir id path parents mode s)
  handle Request.reload_config client s = answered ack client (service.reload_config s)
  handle Request.daemon_shutdown client s = record (answered ack client (ok tt, s)) {
    shutdown_requested = true;
  }
