-- ===== src/Session/Lifecycle.antt =====
-- crates/session/src/lib.rs: the operations of `SessionManager` that make, show, close and clean up
-- sessions, and those that list and cancel commands.
use ai_ssh.Base.{
  ℕ, ◌-◌, ◌*◌, Bool, false, not, ◌&&◌, ◌||◌, List, [], ◌∷◌, ◌++◌, map, Option, none, some, min, max,
}
use ai_ssh.Base.Tests.{leb, if◌then◌else◌, is_some, is_none}
use ai_ssh.Base.Lists.{is_empty, keep, find}
use ai_ssh.Base.Text.{Text, text_eq}
use ai_ssh.Base.Result.{Result, ok, err, ok_or}
use ai_ssh.Config.Types.{Config, Target}
use ai_ssh.Config.Paths.{Paths}
use ai_ssh.Protocol.Types.{SessionInfo, SessionStatus, CommandSummary, TargetSummary, is_running}
use ai_ssh.Protocol.Messages.{ApiResult, error_with}
use ai_ssh.Storage.Tables.{Storage}
use ai_ssh.Storage.Sessions.{session, sessions, newest_sessions, upsert_session, cleanup}
use ai_ssh.Storage.Commands.{commands}
use ai_ssh.Session.Errors.{session_not_found, classify_error}
use ai_ssh.Session.Runtime.{Connection, Foreground, SessionRuntime, SessionManager, lookup}
use ai_ssh.Session.Page.{seconds_since_output}
use ai_ssh.Session.Connect.{Shared, on_runtime, save_info, find_target}
use ai_ssh.Session.Exec.{is_exec}

-- `SessionManager::new`.
unfoldable pub new : Config → Paths → Storage → SessionManager
new config paths db = record { config = config; paths = paths; storage = db; sessions = [] }

unfoldable pub targets : SessionManager → List TargetSummary
targets m =
    map
      (λ t. record {
        id = t.id;
        name = t.name;
        host = t.host;
        port = t.port;
        username = t.username;
        host_verification = false;
      })
      m.config.targets

-- A session's description as a client sees it.
unfoldable pub shown_info : SessionRuntime → SessionInfo
shown_info rt = record (rt.info) { recording_truncated = rt.recording_truncated }

-- `sessions`. The order of the active sessions among equal times is that of a `HashMap`.
unfoldable pub list_sessions : (include_history : Bool) → SessionManager → List SessionInfo
unfolding shown_info newest_sessions sessions
list_sessions include_history m =
    let active = map shown_info m.sessions in
    let stored =
      keep (λ item. is_none (find (λ (a : SessionInfo). text_eq a.id item.id) active))
        (sessions m.storage) in
    newest_sessions (if include_history then active ++ stored else active)

unfoldable pub status : Text → SessionManager → ApiResult SessionInfo
unfolding shown_info lookup session
status id m = elim (lookup id m) [
  | some rt ↦ ok (shown_info rt)
  | none ↦ ok_or (session id m.storage) (session_not_found id)
]

unfoldable pub new_info :
    (now : ℕ) (uuid : Text) → Target → (purpose client_name : Text) → SessionInfo
new_info now uuid target purpose client_name = record {
  id = uuid;
  target_id = target.id;
  target_name = target.name;
  purpose = purpose;
  client_name = client_name;
  status = SessionStatus.connecting;
  current_command = none;
  last_exit_code = none;
  recording_truncated = false;
  host_fingerprint = none;
  created_at = now;
  updated_at = now;
  closed_at = none;
}

unfoldable pub new_runtime : (instant : ℕ) → SessionInfo → SessionRuntime
new_runtime instant info = record {
  session_id = info.id;
  info = info;
  connection = none;
  foreground = none;
  background = [];
  cancelled = [];
  sequence = 0;
  recording_truncated = false;
  live_tail_dropped = false;
  last_activity = instant;
  last_output_at = none;
  live_events = [];
  events_tx = 0;
}

-- The answer of the network, `later` when it comes.
unfoldable pub after_connect :
    (later : ℕ) → Result Text Connection → Shared → ApiResult SessionInfo × Shared
unfolding save_info
after_connect later (ok connection) (rt, db) =
    let info = record (rt.info) {
      status = SessionStatus.ready;
      host_fingerprint = some connection.fingerprint;
      updated_at = later;
    } in
    (ok info, save_info info (record rt { connection = some connection }, db))
after_connect later (err failed) (rt, db) = (
  err (classify_error failed),
  save_info
      (record (rt.info) {
        status = SessionStatus.failed;
        updated_at = later;
        closed_at = some later;
      })
      (rt, db),
)

-- `create`. The UUID is new, so that the map has no entry for it.
unfoldable pub create :
    (now later instant : ℕ) (uuid : Text)
    → Result Text Connection
    → (target_id purpose client_name : Text) → SessionManager
    → ApiResult SessionInfo × SessionManager
unfolding find_target new_info new_runtime after_connect
create now later instant uuid connects target_id purpose client_name m =
    elim (find_target target_id m.config) [
      | none ↦ (
        err (error_with "TARGET_NOT_FOUND" "target {target_id:?} does not exist" (target_id ∷ [])),
        m,
      )
      | some target ↦
          let info = new_info now uuid target purpose client_name in
          let made =
            after_connect later connects
              (new_runtime instant info, upsert_session info m.storage) in
          (made.0, record m { storage = made.1.1; sessions = m.sessions ++ made.1.0 ∷ [] })
    ]

-- The tokens that `close` cancels: that of the command in front, and all behind.
unfoldable pub front_token : Option Foreground → List Text
front_token (some (Foreground.exec id)) = id ∷ []
front_token _ = []

unfoldable pub close_on : (now : ℕ) → Shared → ApiResult (Unit {0}) × Shared
unfolding front_token save_info
close_on now (rt, db) = (
  ok tt,
  save_info
      (record (rt.info) {
        status = SessionStatus.closed;
        current_command = none;
        updated_at = now;
        closed_at = some now;
      })
      (
        record rt {
          foreground = none;
          background = [];
          connection = none;
          cancelled = front_token rt.foreground ++ (rt.background ++ rt.cancelled);
        },
        db,
      ),
)

unfoldable pub close : (now : ℕ) → Text → SessionManager → ApiResult (Unit {0}) × SessionManager
unfolding close_on on_runtime
close now id m = on_runtime id (close_on now) m

abbrev pub runs_behind : Text → SessionRuntime → Bool
runs_behind id rt = is_some (find (λ other. text_eq other id) rt.background)

abbrev cancel : Text → SessionRuntime → SessionRuntime
cancel id rt = record rt { cancelled = id ∷ rt.cancelled }

-- The loop of `command_cancel`; `none` when no session runs the command.
unfoldable pub cancel_in : Text → List SessionRuntime → Option (List SessionRuntime)
cancel_in id [] = none
cancel_in id (rt ∷ rts) =
    if is_exec id rt.foreground || runs_behind id rt
    then some (cancel id rt ∷ rts)
    else elim (cancel_in id rts) [ none ↦ none | some rest ↦ some (rt ∷ rest) ]

unfoldable pub command_cancel : Text → SessionManager → ApiResult (Unit {0}) × SessionManager
unfolding cancel_in
command_cancel id m = elim (cancel_in id m.sessions) [
  | none ↦
      (err (error_with "COMMAND_NOT_RUNNING" "command {command_id:?} is not running" (id ∷ [])), m)
  | some rts ↦ (ok tt, record m { sessions = rts })
]

-- `commands`, with what the runtime of a running command adds. `now` is the wall clock.
unfoldable pub add_output_age : (instant : ℕ) → SessionManager → CommandSummary → CommandSummary
unfolding lookup seconds_since_output is_running
add_output_age instant m c =
    if not (is_running c.status) || is_none (lookup c.session_id m) then c else record c {
      seconds_since_last_output = seconds_since_output instant (lookup c.session_id m);
    }

unfoldable pub list_commands :
    (now instant : ℕ)
    → (session_id : Option Text) → (include_finished : Bool) → (limit : ℕ) → SessionManager
    → List CommandSummary
unfolding add_output_age commands
list_commands now instant session_id include_finished limit m =
    map (add_output_age instant m)
      (commands now session_id include_finished (min (max limit 1) 500) m.storage)

-- `loaded` is what `Config::load` gives.
unfoldable pub reload_config :
    Result Text Config → SessionManager → ApiResult (Unit {0}) × SessionManager
reload_config (err failed) m = (err (error_with "CONFIG_INVALID" "{}" (failed ∷ [])), m)
reload_config (ok config) m = (ok tt, record m { config = config })

-- A session that nothing used for the time of `timeout` milliseconds, and that runs nothing.
unfoldable pub is_idle : (instant timeout : ℕ) → SessionRuntime → Bool
is_idle instant timeout rt =
    leb timeout (instant - rt.last_activity) && (is_none rt.foreground && is_empty rt.background)

-- The loop of `reap_idle` over the sessions that there were.
unfoldable pub reap_each :
    (now instant timeout : ℕ) → List SessionRuntime → SessionManager → SessionManager
unfolding is_idle close
reap_each now instant timeout [] m = m
reap_each now instant timeout (rt ∷ rts) m =
    if is_idle instant timeout rt
    then reap_each now instant timeout rts (close now rt.info.id m).1
    else reap_each now instant timeout rts m

unfoldable pub reap_idle : (now instant : ℕ) → SessionManager → SessionManager
unfolding reap_each cleanup
reap_idle now instant m =
    let cleaned = record m { storage = (cleanup now m.config.retention_days m.storage).0 } in
    reap_each now instant (m.config.idle_timeout_seconds * 1000) m.sessions cleaned
