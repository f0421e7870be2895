-- ===== src/Storage/Sessions.antt =====
-- crates/storage/src/lib.rs: the operations on the table `sessions`.
use ai_ssh.Base.{
  ℕ, ◌-◌, ◌*◌, Bool, true, false, not, ◌&&◌, ◌||◌, List, [], ◌∷◌, ◌++◌, map, Option, none, some,
}
use ai_ssh.Base.Tests.{ltb, leb, if◌then◌else◌, is_some}
use ai_ssh.Base.Text.{Text, text_eq}
use ai_ssh.Base.Lists.{length, find, keep}
use ai_ssh.Protocol.Types.{SessionInfo, SessionStatus, CommandInfo}
use ai_ssh.Storage.Tables.{Storage, SessionRow, update_where}

-- `WHERE id=?1`.
abbrev pub session_is : Text → SessionRow → Bool
session_is id r = text_eq r.info.id id

-- What `ON CONFLICT(id) DO UPDATE` leaves of the stored row and takes from the new one.
unfoldable pub merge_session : SessionInfo → SessionRow → SessionRow
merge_session new row = record row {
  info = record (row.info) {
    status = new.status;
    current_command = new.current_command;
    host_fingerprint = new.host_fingerprint;
    updated_at = new.updated_at;
    closed_at = new.closed_at;
    last_exit_code = new.last_exit_code;
    recording_truncated = row.info.recording_truncated || new.recording_truncated;
  };
}

unfoldable pub has_session : Text → Storage → Bool
has_session id db = is_some (find (session_is id) db.sessions)

unfoldable pub upsert_session : SessionInfo → Storage → Storage
unfolding merge_session has_session
upsert_session session db =
    if has_session session.id db
    then record db {
      sessions = update_where (session_is session.id) (merge_session session) db.sessions;
    }
    else record db { sessions = db.sessions ++ record { info = session; recorded_bytes = 0 } ∷ [] }

-- `SELECT ... WHERE id=?1`.
unfoldable pub session : Text → Storage → Option SessionInfo
session id db = elim (find (session_is id) db.sessions) [ none ↦ none | some r ↦ some r.info ]

-- `ORDER BY created_at DESC`: a stable insertion sort, newest first.
unfoldable pub insert_newest_session : SessionInfo → List SessionInfo → List SessionInfo
insert_newest_session s [] = s ∷ []
insert_newest_session s (t ∷ ts) =
    if leb t.created_at s.created_at then s ∷ t ∷ ts else t ∷ insert_newest_session s ts

unfoldable pub newest_sessions : List SessionInfo → List SessionInfo
unfolding insert_newest_session
newest_sessions [] = []
newest_sessions (s ∷ ss) = insert_newest_session s (newest_sessions ss)

unfoldable pub sessions : Storage → List SessionInfo
unfolding newest_sessions
sessions db = newest_sessions (map (λ r. r.info) db.sessions)

-- `status IN ('closed','failed','disconnected','interrupted')`.
unfoldable pub is_over : SessionStatus → Bool
is_over SessionStatus.closed = true
is_over SessionStatus.failed = true
is_over SessionStatus.disconnected = true
is_over SessionStatus.interrupted = true
is_over _ = false

unfoldable pub interrupt_unfinished : (now : ℕ) → Storage → Storage
unfolding is_over
interrupt_unfinished now db = record db {
  sessions =
      update_where (λ r. not (is_over r.info.status))
        (λ r. record r {
          info = record (r.info) {
            status = SessionStatus.interrupted;
            updated_at = now;
            closed_at = some now;
          };
        })
        db.sessions;
}

abbrev pub nanoseconds_per_day : ℕ
nanoseconds_per_day = 86400 * 1000000000

-- The session that the row of a command refers to.
unfoldable pub owner : Text → List CommandInfo → Option Text
owner id [] = none
owner id (c ∷ cs) = if text_eq c.id id then some c.session_id else owner id cs

-- Whether the command that an event refers to goes with its session.
unfoldable pub loses_command : (stays : Text → Bool) → List CommandInfo → Option Text → Bool
unfolding owner
loses_command stays cs none = false
loses_command stays cs (some id) = elim (owner id cs) [ none ↦ false | some s ↦ not (stays s) ]

-- `DELETE FROM sessions WHERE created_at<?1 AND status IN (...)`. By `ON DELETE CASCADE`, the rows of
-- `commands` and `events` that refer to a deleted session go with it, and so do the rows of `events`
-- that refer to a deleted command. Also the number of sessions.
unfoldable pub is_expired : (before : ℕ) → SessionRow → Bool
unfolding is_over
is_expired before r = ltb r.info.created_at before && is_over r.info.status

unfoldable pub cleanup : (now retention_days : ℕ) → Storage → Storage × ℕ
unfolding is_expired loses_command
cleanup now retention_days db =
    let before = now - retention_days * nanoseconds_per_day in
    let left = keep (λ r. not (is_expired before r)) db.sessions in
    let stays = λ (id : Text). is_some (find (session_is id) left) in
    (
      record db {
        sessions = left;
        commands = keep (λ c. stays c.session_id) db.commands;
        events =
            keep (λ e. stays e.session_id && not (loses_command stays db.commands e.command_id))
              db.events;
      },
      length (keep (is_expired before) db.sessions),
    )
