-- ===== src/Session/Shell.antt =====
-- crates/session/src/lib.rs: interactive shells: `shell_open`, the task `run_pty`, `shell_write`,
-- `shell_resize` and `shell_close`.
use ai_ssh.Base.{ℕ, Bool, false, List, Option, none, some, min, max}
use ai_ssh.Base.Tests.{if◌then◌else◌, is_some}
use ai_ssh.Base.Text.{Text, codes, text_eq}
use ai_ssh.Base.Result.{Result, ok, err, map_err}
use ai_ssh.Config.Types.{Config}
use ai_ssh.Protocol.Types.{SessionInfo, SessionStatus, StreamKind, is_closed}
use ai_ssh.Protocol.Messages.{ErrorPayload, ApiResult, error}
use ai_ssh.Session.Errors.{classify_error}
use ai_ssh.Session.Runtime.{Connection, Foreground, SessionManager}
use ai_ssh.Session.Record.{record_event}
use ai_ssh.Session.Connect.{Shared, Dial, on_runtime, save_info, connection_for, discard_connection}
use ai_ssh.Session.Exec.{busy, wake}

-- `clamp(20, 1000)` and `clamp(5, 500)`.
abbrev pub pty_size : (cols rows : ℕ) → ℕ × ℕ
pty_size cols rows = (min (max cols 20) 1000, min (max rows 5) 500)

-- What `shell_open` meets: the time, a new UUID, and the answers of the network to dialing and to the
-- request for a PTY of a size and a terminal.
pub record ShellOutside : Type 0 where
  pub now : ℕ
  pub uuid : Text
  pub dial : Dial
  pub opens : ℕ × ℕ → Text → Result Text (Unit {0})

unfoldable pub enter_shell : ShellOutside → Shared → Shared
unfolding save_info
enter_shell o (rt, db) =
    save_info
      (record (rt.info) {
        status = SessionStatus.pty_open;
        current_command = some (codes "Interactive shell");
        updated_at = o.now;
      })
      (record rt { foreground = some (Foreground.pty o.uuid) }, db)

unfoldable pub open_pty :
    ShellOutside
    → (cols rows : ℕ) → (term : Text) → ApiResult Connection × Shared
    → ApiResult SessionInfo × Shared
unfolding discard_connection
open_pty o cols rows term (err failed, shared) = (err failed, shared)
open_pty o cols rows term (ok connection, shared) = elim (o.opens (pty_size cols rows) term) [
  | err failed ↦ (err (classify_error failed), discard_connection shared)
  | ok _ ↦ let opened = enter_shell o shared in (ok opened.0.info, opened)
]

unfoldable pub shell_open_on :
    Config
    → ShellOutside
    → (cols rows : ℕ) → (term : Text) → Shared
    → ApiResult SessionInfo × Shared
unfolding open_pty
shell_open_on config o cols rows term (rt, db) =
    if is_some rt.foreground
    then (err busy, (rt, db))
    else open_pty o cols rows term (connection_for o.now config o.dial (rt, db))

unfoldable pub shell_open :
    ShellOutside
    → Text
    → (cols rows : ℕ) → (term : Text) → SessionManager
    → ApiResult SessionInfo × SessionManager
unfolding shell_open_on on_runtime
shell_open o id cols rows term m = on_runtime id (shell_open_on m.config o cols rows term) m

-- One turn of the loop of `run_pty`.
unfoldable pub pty_output : (now instant : ℕ) → List ℕ → Shared → Shared
unfolding record_event
pty_output now instant d (rt, db) =
    record_event now instant none StreamKind.pty d (record rt { last_activity = instant }, db)

abbrev pub is_pty : Text → Option Foreground → Bool
is_pty id (some (Foreground.pty other)) = text_eq other id
is_pty id _ = false

abbrev pub leave_status : SessionStatus → (now : ℕ) → Shared → Shared
leave_status status now (rt, db) =
    if is_closed rt.info.status
    then (rt, db)
    else save_info (record (rt.info) { status = status; current_command = none; updated_at = now })
        (rt, db)

-- The end of `run_pty`. A shell whose slot is gone was closed on purpose.
unfoldable pub finish_pty : (now : ℕ) → (pty_id : Text) → Shared → Shared
unfolding discard_connection save_info is_closed wake
finish_pty now pty_id (rt, db) = wake (
    if is_pty pty_id rt.foreground
    then leave_status SessionStatus.disconnected now
        (discard_connection (record rt { foreground = none }, db))
    else leave_status SessionStatus.idle now (rt, db))

abbrev pub pty_not_open : ErrorPayload
pty_not_open = error "PTY_NOT_OPEN" "session has no open PTY"

-- `wrote` is the answer of the network.
unfoldable pub shell_write_on :
    (instant : ℕ) → (wrote : Result Text (Unit {0})) → Shared → ApiResult (Unit {0}) × Shared
shell_write_on instant wrote (rt, db) = elim rt.foreground [
  | some (Foreground.pty id) ↦ elim wrote [
    | err failed ↦ (err (classify_error failed), (rt, db))
    | ok _ ↦ (ok tt, (record rt { last_activity = instant }, db))
  ]
  | _ ↦ (err pty_not_open, (rt, db))
]

unfoldable pub shell_write :
    (instant : ℕ)
    → (wrote : Result Text (Unit {0})) → Text
    → SessionManager
    → ApiResult (Unit {0}) × SessionManager
unfolding shell_write_on on_runtime
shell_write instant wrote id m = on_runtime id (shell_write_on instant wrote) m

-- `resizes` is the answer of the network to a size.
unfoldable pub shell_resize_on :
    (resizes : ℕ × ℕ → Result Text (Unit {0}))
    → (cols rows : ℕ) → Shared
    → ApiResult (Unit {0}) × Shared
shell_resize_on resizes cols rows (rt, db) = elim rt.foreground [
  | some (Foreground.pty id) ↦ (map_err classify_error (resizes (pty_size cols rows)), (rt, db))
  | _ ↦ (err pty_not_open, (rt, db))
]

unfoldable pub shell_resize :
    (resizes : ℕ × ℕ → Result Text (Unit {0}))
    → Text
    → (cols rows : ℕ) → SessionManager
    → ApiResult (Unit {0}) × SessionManager
unfolding shell_resize_on on_runtime
shell_resize resizes id cols rows m = on_runtime id (shell_resize_on resizes cols rows) m

-- `foreground.take()` empties the slot before its content is looked at.
unfoldable pub shell_close_on :
    (closes : Result Text (Unit {0})) → Shared → ApiResult (Unit {0}) × Shared
shell_close_on closes (rt, db) =
    let taken : Shared = (record rt { foreground = none }, db) in
    elim rt.foreground [
      | some (Foreground.pty id) ↦ (map_err classify_error closes, taken)
      | _ ↦ (err pty_not_open, taken)
    ]

unfoldable pub shell_close :
    (closes : Result Text (Unit {0}))
    → Text
    → SessionManager
    → ApiResult (Unit {0}) × SessionManager
unfolding shell_close_on on_runtime
shell_close closes id m = on_runtime id (shell_close_on closes) m
