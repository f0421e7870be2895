-- ===== src/Session/Exec.antt =====
-- crates/session/src/lib.rs: `start_exec`, and the task `run_exec` of a running command.
pub mod Outcome
pub mod Runs
pub mod Cancel
use ai_ssh.Base.{
  ℕ, ◌+◌, ◌%◌, ◌^◌, ◌≡◌, refl, Bool, true, false, not, ◌&&◌, ◌||◌, List, [], ◌∷◌, Option, none,
  some, min, max,
}
use ai_ssh.Base.Tests.{if◌then◌else◌, is_some, ◌==◌}
use ai_ssh.Base.Lists.{is_empty, keep}
use ai_ssh.Base.Text.{Text, codes, text_eq, trim}
use ai_ssh.Base.Result.{Result, ok, err, map_err}
use ai_ssh.Config.Types.{Config}
use ai_ssh.Protocol.Types.{
  CommandInfo, CommandStatus, SessionStatus, StreamKind, is_closed, is_interrupted,
}
use ai_ssh.Protocol.Messages.{ErrorPayload, ApiResult, error, retryable}
use ai_ssh.Ssh.Command.{build_command}
use ai_ssh.Ssh.Channel.{ChannelEvent}
use ai_ssh.Storage.Tables.{Storage}
use ai_ssh.Storage.Commands.{command, insert_command, update_command}
use ai_ssh.Session.Errors.{internal, classify_error, clearly_interactive, channel_end_status}
use ai_ssh.Session.Runtime.{Connection, Foreground, SessionRuntime, SessionManager}
use ai_ssh.Session.Record.{record_event}
use ai_ssh.Session.Connect.{Shared, Dial, on_runtime, save_info, connection_for, discard_connection}

-- What the caller asks for.
pub record ExecRequest : Type 0 where
  pub session_id : Text
  pub command : Text
  pub cwd : Option Text
  pub env : List (Text × Text)
  pub timeout_seconds : Option ℕ
  pub background : Bool

-- What the operation meets: the time, a new UUID, the `Debug` form of a text, the
-- answers of the network to dialing and to opening a channel.
pub record Outside : Type 0 where
  pub now : ℕ
  pub uuid : Text
  pub debug : Text → Text
  pub dial : Dial
  pub opens : Result Text (Unit {0})

abbrev pub busy : ErrorPayload
busy = retryable (error "SESSION_BUSY" "session already has a foreground exec or PTY")

abbrev remove : Text → List Text → List Text
remove id ids = keep (λ other. not (text_eq other id)) ids

unfoldable pub new_command : Outside → ExecRequest → CommandInfo
new_command o q = record {
  id = o.uuid;
  session_id = q.session_id;
  command = q.command;
  status = CommandStatus.running;
  exit_code = none;
  started_at = o.now;
  finished_at = none;
  last_sequence = 0;
  recording_truncated = false;
  output_bytes = 0;
}

-- The command is entered as the one in front or as one of those behind.
unfoldable pub enter_command : Outside → ExecRequest → Shared → Shared
unfolding save_info
enter_command o q (rt, db) =
    if q.background
    then (
      record rt {
        background = o.uuid ∷ remove o.uuid rt.background;
        cancelled = remove o.uuid rt.cancelled;
      },
      db,
    )
    else save_info
        (record (rt.info) {
          status = SessionStatus.exec_running;
          current_command = some q.command;
          last_exit_code = none;
          updated_at = o.now;
        })
        (
          record rt {
            foreground = some (Foreground.exec o.uuid);
            cancelled = remove o.uuid rt.cancelled;
          },
          db,
        )

-- What follows the opening of the channel.
unfoldable pub after_open : Outside → ExecRequest → Shared → ApiResult CommandInfo × Shared
unfolding new_command enter_command
after_open o q (rt, db) = elim (insert_command (new_command o q) db) [
  | err failed ↦ (err (internal failed), (rt, db))
  | ok stored ↦ (ok (new_command o q), enter_command o q (rt, stored))
]

-- What follows the connection.
unfoldable pub open_exec :
    Outside → ExecRequest → ApiResult Connection × Shared → ApiResult CommandInfo × Shared
unfolding after_open discard_connection
open_exec o q (err failed, shared) = (err failed, shared)
open_exec o q (ok connection, shared) = elim o.opens [
  | err failed ↦ (err (classify_error failed), discard_connection shared)
  | ok _ ↦ after_open o q shared
]

-- `start_exec` from the point where it has the session's runtime.
unfoldable pub start_on : Config → Outside → ExecRequest → Shared → ApiResult CommandInfo × Shared
unfolding open_exec
start_on config o q (rt, db) =
    if not q.background && is_some rt.foreground
    then (err busy, (rt, db))
    else elim (build_command o.debug q.command q.cwd q.env) [
      | err failed ↦ (err (classify_error failed), (rt, db))
      | ok remote ↦ open_exec o q (connection_for o.now config o.dial (rt, db))
    ]

-- `start_exec`, which `exec_start` and `exec_background` call.
unfoldable pub start_exec :
    Outside → ExecRequest → SessionManager → ApiResult CommandInfo × SessionManager
unfolding start_on on_runtime
start_exec o q m =
    if is_empty (trim q.command)
    then (err (error "INVALID_ARGUMENT" "command must not be empty"), m)
    else if clearly_interactive q.command
    then (
      err (
          error "INTERACTIVE_REQUIRED"
            "this command is explicitly interactive; open a PTY for this session"),
      m,
    )
    else on_runtime q.session_id (start_on m.config o q) m

-- `timeout_seconds.unwrap_or(...).clamp(1, 86400)`.
unfoldable pub exec_timeout : ExecRequest → ℕ
exec_timeout q =
    let asked : ℕ = elim q.timeout_seconds [
      | none ↦ (if q.background then 86400 else 300)
      | some t ↦ t
    ] in
    min (max asked 1) 86400

-- What the loop of `run_exec` is woken by, with the time.
pub data ExecInput : Type 0 where
  cancelled deadline : ExecInput
  channel : Option ChannelEvent → ExecInput

pub record Timed : Type 0 where
  pub now : ℕ
  pub instant : ℕ
  pub input : ExecInput

-- What ends the loop: the status.
unfoldable pub ending : (exit : Option ℕ) → ExecInput → Option CommandStatus
unfolding channel_end_status
ending exit ExecInput.cancelled = some CommandStatus.cancelled
ending exit ExecInput.deadline = some CommandStatus.timed_out
ending exit (ExecInput.channel none) = some (channel_end_status exit)
ending exit (ExecInput.channel (some ChannelEvent.close)) = some (channel_end_status exit)
ending exit (ExecInput.channel (some _)) = none

unfoldable pub exit_after : ExecInput → Option ℕ → Option ℕ
exit_after (ExecInput.channel (some (ChannelEvent.exit_status code))) exit = some code
exit_after _ exit = exit

-- The branches that record output.
unfoldable pub take_input : (id : Text) → Timed → Shared → Shared
unfolding record_event
take_input id t shared = elim t.input [
  | ExecInput.channel (some (ChannelEvent.bytes d)) ↦
      record_event t.now t.instant (some id) StreamKind.stdout d shared
  | ExecInput.channel (some (ChannelEvent.extended_data d)) ↦
      record_event t.now t.instant (some id) StreamKind.stderr d shared
  | _ ↦ shared
]

-- How the loop ended: the status and the exit code.
pub record Ended : Type 0 where
  pub status : CommandStatus
  pub exit : Option ℕ

-- The loop; it waits for more when the inputs are used up.
unfoldable pub exec_loop :
    (id : Text) → List Timed → (exit : Option ℕ) → Shared → Option Ended × Shared
unfolding take_input exit_after ending
exec_loop id [] exit shared = (none, shared)
exec_loop id (t ∷ ts) exit shared = elim (ending exit t.input) [
  | some status ↦ (some (record { status = status; exit = exit }), shared)
  | none ↦ exec_loop id ts (exit_after t.input exit) (take_input id t shared)
]

-- The command as `run_exec` stores it at the end. A value that it does not read back counts as 0 bytes.
unfoldable pub ended_command : (now : ℕ) → CommandInfo → Ended → Shared → CommandInfo
ended_command now c ended (rt, db) = record c {
  status = ended.status;
  exit_code = ended.exit;
  finished_at = some now;
  last_sequence = rt.sequence;
  output_bytes = elim (command c.id db) [ none ↦ 0 | some stored ↦ stored.output_bytes ];
}

abbrev pub is_exec : Text → Option Foreground → Bool
is_exec id (some (Foreground.exec other)) = text_eq other id
is_exec id _ = false

-- The session of a foreground command that has ended.
unfoldable pub leave_foreground : (now : ℕ) → (id : Text) → Ended → Shared → Shared
unfolding save_info is_closed is_interrupted
leave_foreground now id ended (rt, db) =
    let freed = record rt {
      foreground = if is_exec id rt.foreground then none else rt.foreground;
    } in
    if is_closed rt.info.status
    then (freed, db)
    else save_info
        (record (rt.info) {
          status =
              if is_interrupted ended.status
              then SessionStatus.disconnected
              else SessionStatus.idle;
          current_command = none;
          last_exit_code = ended.exit;
          updated_at = now;
        })
        (freed, db)

unfoldable pub wake : Shared → Shared
wake (rt, db) = (record rt { events_tx = (rt.events_tx + 1) % 2 ^ 64 }, db)

unfoldable pub end_connection : CommandStatus → Shared → Shared
unfolding discard_connection is_interrupted
end_connection status shared = if is_interrupted status then discard_connection shared else shared

unfoldable pub leave_background : Text → Shared → Shared
leave_background id (rt, db) = (record rt { background = remove id rt.background }, db)

-- What `run_exec` does when its loop has ended.
unfoldable pub finish_exec :
    (now instant : ℕ) → (background : Bool) → CommandInfo → Ended → Shared → Shared
unfolding ended_command end_connection leave_foreground leave_background wake
finish_exec now instant background c ended (rt, db) =
    let stored = update_command (ended_command now c ended (rt, db)) db in
    let unconnected = end_connection ended.status (record rt { last_activity = instant }, stored) in
    wake (
      if background
      then leave_background c.id unconnected
      else leave_foreground now c.id ended unconnected)
