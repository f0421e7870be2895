-- ===== src/Session/Steps.antt =====
-- crates/session/src/lib.rs: the steps of a manager: the operations that change a session, and what
-- the tasks `run_exec` and `run_pty` do between two waits, in any order.
use ai_ssh.Base.{
  ℕ, zero, suc, ◌+◌, ◌≡◌, ◌⊎◌, refl, ap, sym, subst, ◌∙◌, Bool, true, false, not, ◌&&◌, List, [],
  ◌∷◌, ◌++◌, Option, none, some, arith, inl, inr,
}
use ai_ssh.Base.Tests.{if◌then◌else◌, is_some, Bool-cases, Option-cases}
use ai_ssh.Base.Lists.{All, All-append, find, find-All}
use ai_ssh.Base.Text.{Text, text_eq, text_eq_iff, text_eq_refl}
use ai_ssh.Base.Result.{Result, ok, err}
use ai_ssh.Config.Types.{Config}
use ai_ssh.Protocol.Types.{SessionInfo, CommandInfo, StreamKind, is_closed}
use ai_ssh.Protocol.Messages.{ApiResult}
use ai_ssh.Storage.Tables.{Storage, update_where}
use ai_ssh.Session.Runtime.{
  Connection, SessionRuntime, SessionManager, lookup, put_runtime, runtime_is,
}
use ai_ssh.Session.Record.{record_event}
use ai_ssh.Session.Files.{Host, WriteRequest, sftp_channel, file_write}
use ai_ssh.Session.Connect.{Dial, Shared, on_runtime}
use ai_ssh.Session.Exec.{ExecRequest, Outside, Ended, start_exec, finish_exec}
use ai_ssh.Session.Shell.{
  ShellOutside, shell_open, finish_pty, shell_write, shell_resize, shell_close, pty_output,
}
use ai_ssh.Session.Transfers.{ReadHost, file_read}
use ai_ssh.Session.Lifecycle.{create, close, command_cancel, reload_config, reap_idle}
pub mod Closed
pub mod Sessions
pub mod Reachable

-- A task's change to its session.
abbrev pub quietly : (Shared → Shared) → Shared → ApiResult (Unit {0}) × Shared
quietly f shared = (ok tt, f shared)

pub data Step : SessionManager → SessionManager → Type 0 where
  creates :
      {m : SessionManager} (now later instant : ℕ) (uuid : Text) (connects : Result Text Connection)
      (target_id purpose client_name : Text)
      → lookup uuid m ≡ none
      → Step m (create now later instant uuid connects target_id purpose client_name m).1
  closes : {m : SessionManager} (now : ℕ) (id : Text) → Step m (close now id m).1
  starts : {m : SessionManager} (o : Outside) (q : ExecRequest) → Step m (start_exec o q m).1
  records :
      {m : SessionManager} (now instant : ℕ) (id : Text) (command_id : Option Text)
      (stream : StreamKind) (d : List ℕ)
      → Step m (on_runtime id (quietly (record_event now instant command_id stream d)) m).1
  ends :
      {m : SessionManager} (now instant : ℕ) (id : Text) (background : Bool) (c : CommandInfo)
      (ended : Ended)
      → Step m (on_runtime id (quietly (finish_exec now instant background c ended)) m).1
  opens_shell :
      {m : SessionManager} (o : ShellOutside) (id : Text) (cols rows : ℕ) (term : Text)
      → Step m (shell_open o id cols rows term m).1
  ends_shell :
      {m : SessionManager} (now : ℕ) (id pty_id : Text)
      → Step m (on_runtime id (quietly (finish_pty now pty_id)) m).1
  writes :
      {m : SessionManager} (instant : ℕ) (wrote : Result Text (Unit {0})) (id : Text)
      → Step m (shell_write instant wrote id m).1
  closes_shell :
      {m : SessionManager} (answer : Result Text (Unit {0})) (id : Text)
      → Step m (shell_close answer id m).1
  cancels : {m : SessionManager} (id : Text) → Step m (command_cancel id m).1
  reloads : {m : SessionManager} (loaded : Result Text Config) → Step m (reload_config loaded m).1
  opens_sftp :
      {m : SessionManager} (now : ℕ) (dial : Dial) (opens : Result Text (Unit {0})) (id : Text)
      → Step m (on_runtime id (sftp_channel now m.config dial opens) m).1
  writes_file :
      {m : SessionManager} (h : Host) (q : WriteRequest) (id : Text)
      → Step m (file_write h q id m).1
  reads_file :
      {m : SessionManager} (h : ReadHost) (id path : Text) (max_bytes : ℕ) (sudo : Bool)
      → Step m (file_read h id path max_bytes sudo m).1
  resizes :
      {m : SessionManager} (answer : ℕ × ℕ → Result Text (Unit {0})) (id : Text) (cols rows : ℕ)
      → Step m (shell_resize answer id cols rows m).1
  reaps : {m : SessionManager} (now instant : ℕ) → Step m (reap_idle now instant m)

-- Any number of steps.
pub data Steps : SessionManager → SessionManager → Type 0 where
  done : {m : SessionManager} → Steps m m
  then_step : {a b c : SessionManager} → Steps a b → Step b c → Steps a c

-- Steps after steps.
pub Steps-append : {a b c : SessionManager} → Steps a b → Steps b c → Steps a c
Steps-append before Steps.done = before
Steps-append before (Steps.then_step later step) = Steps.then_step (Steps-append before later) step
