-- ===== src/Session/Runtime.antt =====
-- crates/session/src/lib.rs: `SessionRuntime`, `Foreground` and `SessionManager`. Locks and atomics
-- are plain fields: each operation of the model runs between two points at which it holds them.
use ai_ssh.Base.{ℕ, Bool, List, Option}
use ai_ssh.Base.Lists.{find}
use ai_ssh.Base.Text.{Text, text_eq}
use ai_ssh.Base.Result.{Result, ok_or}
use ai_ssh.Config.Types.{Config}
use ai_ssh.Config.Paths.{Paths}
use ai_ssh.Protocol.Types.{SessionInfo, TerminalEvent}
use ai_ssh.Protocol.Messages.{ErrorPayload}
use ai_ssh.Storage.Tables.{Storage, update_where}
use ai_ssh.Session.Errors.{session_not_found}

-- An `SshConnection`: the fingerprint of its host, and whether the transport has gone away.
pub record Connection : Type 0 where
  pub fingerprint : Text
  pub is_closed : Bool

-- The one thing that runs in front: a command (its token is in `cancelled` once it is cancelled) or a
-- shell, which is known by its id.
pub data Foreground : Type 0 where
  exec : (command_id : Text) → Foreground
  pty : (id : Text) → Foreground

-- `background` and `cancelled` are the ids of the commands whose tokens they hold; `cancelled` has
-- those that were cancelled. Times are milliseconds of the monotonic clock.
pub record SessionRuntime : Type 0 where
  pub session_id : Text
  pub info : SessionInfo
  pub connection : Option Connection
  pub foreground : Option Foreground
  pub background : List Text
  pub cancelled : List Text
  pub sequence : ℕ
  pub recording_truncated : Bool
  pub live_tail_dropped : Bool
  pub last_activity : ℕ
  pub last_output_at : Option ℕ
  pub live_events : List TerminalEvent
  pub events_tx : ℕ

pub record SessionManager : Type 0 where
  pub config : Config
  pub paths : Paths
  pub storage : Storage
  pub sessions : List SessionRuntime

abbrev pub runtime_is : Text → SessionRuntime → Bool
runtime_is id rt = text_eq rt.session_id id

-- `sessions.read().await.get(id)`.
unfoldable pub lookup : Text → SessionManager → Option SessionRuntime
lookup id m = find (runtime_is id) m.sessions

-- `runtime`.
unfoldable pub runtime : Text → SessionManager → Result ErrorPayload SessionRuntime
unfolding lookup
runtime id m = ok_or (lookup id m) (session_not_found id)

-- The runtime that others share is written in place.
unfoldable pub put_runtime : SessionRuntime → SessionManager → SessionManager
put_runtime rt m = record m {
  sessions = update_where (runtime_is rt.session_id) (λ _. rt) m.sessions;
}
