-- ===== src/Session/CancelExamples.antt =====
-- crates/session/src/lib.rs: sessions on which the theorems on `command_cancel` apply.
use ai_ssh.Base.{◌≡◌, refl, [], ◌∷◌, some, inl}
use ai_ssh.Base.Text.{codes, text_eq, trim}
use ai_ssh.Base.Result.{ok, err}
use ai_ssh.Protocol.Messages.{error_with}
use ai_ssh.Protocol.Types.{is_closed}
use ai_ssh.Ssh.Command.{build_command}
use ai_ssh.Storage.Sessions.{has_session}
use ai_ssh.Storage.Commands.{insert_command}
use ai_ssh.Session.Errors.{clearly_interactive}
use ai_ssh.Session.Runtime.{SessionManager, lookup}
use ai_ssh.Session.Connect.{connection_for}
use ai_ssh.Session.Exec.{start_exec, start_on}
use ai_ssh.Session.Exec.Cancel.{IsCancelled, command_cancel-start_exec, command_cancel-shell_close}
use ai_ssh.Session.Shell.{shell_close, pty_not_open}
use ai_ssh.Session.Lifecycle.{command_cancel}
use ai_ssh.Session.Examples.{runtime_one, manager_one}
use ai_ssh.Session.LifecycleExamples.{idle_runtime, meets, request, started}

abbrev idle_manager : SessionManager
idle_manager = record manager_one { sessions = idle_runtime ∷ [] }

it_is_started : (start_exec meets request idle_manager).0 ≡ ok started
unfolding start_exec start_on text_eq build_command connection_for insert_command has_session
    clearly_interactive trim
it_is_started = refl

command_cancel-start_exec_example :
    ((command_cancel started.id (start_exec meets request idle_manager).1).0 ≡ ok tt)
    × IsCancelled started.id
        (command_cancel started.id (start_exec meets request idle_manager).1).1.sessions
unfolding is_closed
command_cancel-start_exec_example =
    command_cancel-start_exec meets request idle_manager started (inl refl, tt) it_is_started

session_is_found : lookup (codes "s") manager_one ≡ some runtime_one
unfolding lookup text_eq
session_is_found = refl

command_cancel-shell_close_example :
    ((shell_close (ok tt) (codes "s") manager_one).0 ≡ err pty_not_open)
    × ((shell_close (ok tt) (codes "s") manager_one).1.storage ≡ manager_one.storage)
    × (command_cancel (codes "c") (shell_close (ok tt) (codes "s") manager_one).1 ≡ (
      err (
          error_with "COMMAND_NOT_RUNNING" "command {command_id:?} is not running"
            (codes "c" ∷ [])),
      (shell_close (ok tt) (codes "s") manager_one).1,
    ))
unfolding text_eq
command_cancel-shell_close_example =
    command_cancel-shell_close (ok tt) (codes "s") (codes "c") manager_one runtime_one
      session_is_found refl refl (inl refl, tt)
