-- ===== src/Session/Connect.antt =====
-- crates/session/src/lib.rs: `connect_runtime`, `connection_for` and `discard_connection`. What the
-- network answers is an argument; the pauses between attempts are not modelled.
pub mod Attempts
use ai_ssh.Base.{
  ℕ, zero, suc, ◌+◌, ◌≡◌, refl, Bool, true, false, List, [], ◌∷◌, Option, none, some, min, max,
}
use ai_ssh.Base.Tests.{if◌then◌else◌}
use ai_ssh.Base.Lists.{find}
use ai_ssh.Base.Text.{Text, text_eq}
use ai_ssh.Base.Result.{Result, ok, err}
use ai_ssh.Config.Types.{Config, Target}
use ai_ssh.Protocol.Types.{SessionInfo, SessionStatus, is_closed}
use ai_ssh.Protocol.Messages.{ErrorPayload, ApiResult, error, error_with}
use ai_ssh.Storage.Tables.{Storage}
use ai_ssh.Storage.Sessions.{upsert_session}
use ai_ssh.Session.Errors.{session_not_found, classify_error}
use ai_ssh.Session.Runtime.{Connection, SessionRuntime, SessionManager, lookup, put_runtime}

-- What an operation on one session reads and writes.
abbrev pub Shared : Type 0
Shared = SessionRuntime × Storage

-- An operation on the session of an id, which is refused when the manager has none.
unfoldable pub on_runtime :
    {A : Type 0}
    → Text
    → (Shared → ApiResult A × Shared)
    → SessionManager
    → ApiResult A × SessionManager
unfolding lookup put_runtime
on_runtime id f m = elim (lookup id m) [
  | none ↦ (err (session_not_found id), m)
  | some rt ↦ let r = f (rt, m.storage) in (r.0, put_runtime r.1.0 (record m { storage = r.1.1 }))
]

-- The session's description is changed and stored.
unfoldable pub save_info : SessionInfo → Shared → Shared
save_info info (rt, db) = (record rt { info = info }, upsert_session info db)

unfoldable pub find_target : Text → Config → Option Target
find_target id config = find (λ t. text_eq t.id id) config.targets

-- The answer to each attempt, from the first.
abbrev pub Dial : Type 0
Dial = ℕ → Result Text Connection

-- The loop `for attempt in 1..=attempts`: `left` attempts are to be made, and `last` is the error of
-- the one before.
unfoldable pub dial_loop : (left attempt : ℕ) → Dial → Option ErrorPayload → ApiResult Connection
dial_loop zero attempt dial none = err (error "SSH_ERROR" "reconnect failed")
dial_loop zero attempt dial (some last) = err last
dial_loop (suc left) attempt dial last = elim (dial attempt) [
  | ok connection ↦ ok connection
  | err failed ↦ dial_loop left (attempt + 1) dial (some (classify_error failed))
]

-- `clamp(1, 10)`.
abbrev pub attempts : Config → ℕ
attempts config = min (max config.reconnect_attempts 1) 10

-- The status of a session that has its connection again.
unfoldable pub reconnected : SessionStatus → SessionStatus
reconnected SessionStatus.connecting = SessionStatus.ready
reconnected SessionStatus.disconnected = SessionStatus.ready
reconnected SessionStatus.failed = SessionStatus.ready
reconnected status = status

unfoldable pub after_dial :
    (now : ℕ) → ApiResult Connection → Shared → ApiResult Connection × Shared
unfolding is_closed reconnected save_info
after_dial now (ok connection) (rt, db) = (
  ok connection,
  if is_closed rt.info.status
      then (rt, db)
      else save_info
          (record (rt.info) {
            status = reconnected rt.info.status;
            host_fingerprint = some connection.fingerprint;
            updated_at = now;
          })
          (rt, db),
)
after_dial now (err failed) (rt, db) = (
  err failed,
  if is_closed rt.info.status
      then (rt, db)
      else save_info
          (record (rt.info) {
            status = SessionStatus.disconnected;
            current_command = none;
            updated_at = now;
          })
          (rt, db),
)

unfoldable pub connect_runtime : (now : ℕ) → Config → Dial → Shared → ApiResult Connection × Shared
unfolding is_closed find_target dial_loop after_dial
connect_runtime now config dial (rt, db) =
    if is_closed rt.info.status
    then (err (error "SESSION_CLOSED" "session is closed"), (rt, db))
    else elim (find_target rt.info.target_id config) [
      | none ↦ (
        err (
            error_with "TARGET_NOT_FOUND"
              "target {target_id:?} no longer exists in the configuration"
              (rt.info.target_id ∷ [])),
        (rt, db),
      )
      | some target ↦ after_dial now (dial_loop (attempts config) 1 dial none) (rt, db)
    ]

-- The connection in the slot, unless it is closed.
unfoldable pub usable : Option Connection → Option Connection
usable none = none
usable (some connection) = if connection.is_closed then none else some connection

-- The second look at the slot, when a connection was made.
unfoldable pub keep_connection : ApiResult Connection × Shared → ApiResult Connection × Shared
unfolding usable
keep_connection (err failed, shared) = (err failed, shared)
keep_connection (ok connection, (rt, db)) = elim (usable rt.connection) [
  | some existing ↦ (ok existing, (rt, db))
  | none ↦ (ok connection, (record rt { connection = some connection }, db))
]

unfoldable pub connection_for : (now : ℕ) → Config → Dial → Shared → ApiResult Connection × Shared
unfolding usable connect_runtime keep_connection
connection_for now config dial (rt, db) = elim (usable rt.connection) [
  | some connection ↦ (ok connection, (rt, db))
  | none ↦ keep_connection (connect_runtime now config dial (rt, db))
]

unfoldable pub discard_connection : Shared → Shared
discard_connection (rt, db) = (record rt { connection = none }, db)
