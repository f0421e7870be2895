-- ===== src/Storage/Commands.antt =====
-- crates/storage/src/lib.rs: the operations on the table `commands`.
use ai_ssh.Base.{ℕ, ◌-◌, ◌/◌, Bool, ◌&&◌, ◌||◌, List, [], ◌∷◌, ◌++◌, map, Option, none, some}
use ai_ssh.Base.Tests.{leb, if◌then◌else◌, is_some}
use ai_ssh.Base.Text.{Text, text_eq}
use ai_ssh.Base.Result.{Result, ok, err}
use ai_ssh.Base.Lists.{find, keep, take}
use ai_ssh.Protocol.Types.{CommandInfo, CommandSummary, is_running}
use ai_ssh.Protocol.Preview.{command_preview}
use ai_ssh.Storage.Tables.{Storage, StorageError, update_where}
use ai_ssh.Storage.Sessions.{has_session}

abbrev pub command_is : Text → CommandInfo → Bool
command_is id c = text_eq c.id id

-- `SELECT ... WHERE id=?1`.
unfoldable pub command : Text → Storage → Option CommandInfo
command id db = find (command_is id) db.commands

-- `INSERT INTO commands`: the id is the primary key, and the session must exist.
unfoldable pub insert_command : CommandInfo → Storage → Result StorageError Storage
unfolding command
insert_command c db =
    if is_some (command c.id db)
    then err StorageError.constraint
    else if has_session c.session_id db
    then ok (record db { commands = db.commands ++ c ∷ [] })
    else err StorageError.constraint

unfoldable pub update_command : CommandInfo → Storage → Storage
update_command c db = record db {
  commands =
      update_where (command_is c.id)
        (λ row. record row {
          status = c.status;
          exit_code = c.exit_code;
          finished_at = c.finished_at;
          last_sequence = c.last_sequence;
          recording_truncated = row.recording_truncated || c.recording_truncated;
        })
        db.commands;
}

-- `ORDER BY started_at DESC`: a stable insertion sort, newest first.
unfoldable pub insert_newest_command : CommandInfo → List CommandInfo → List CommandInfo
insert_newest_command c [] = c ∷ []
insert_newest_command c (d ∷ ds) =
    if leb d.started_at c.started_at then c ∷ d ∷ ds else d ∷ insert_newest_command c ds

unfoldable pub newest_commands : List CommandInfo → List CommandInfo
unfolding insert_newest_command
newest_commands [] = []
newest_commands (c ∷ cs) = insert_newest_command c (newest_commands cs)

abbrev first {ℓ} : {A : Type ℓ} → List A → Option A
first [] = none
first (a ∷ rest) = some a

-- `WHERE session_id=?1 ORDER BY started_at DESC LIMIT 1`.
unfoldable pub latest_command_for_session : Text → Storage → Option CommandInfo
unfolding newest_commands
latest_command_for_session session_id db =
    first (newest_commands (keep (λ c. text_eq c.session_id session_id) db.commands))

abbrev pub nanoseconds_per_second : ℕ
nanoseconds_per_second = 1000000000

-- `(Utc::now() - started_at).num_seconds().max(0)`: a start in the future counts as 0 seconds.
unfoldable pub summarize : (now : ℕ) → CommandInfo → CommandSummary
unfolding command_preview is_running
summarize now c = record {
  id = c.id;
  session_id = c.session_id;
  command_preview = command_preview c.command;
  status = c.status;
  exit_code = c.exit_code;
  started_at = c.started_at;
  finished_at = c.finished_at;
  last_sequence = c.last_sequence;
  output_bytes = c.output_bytes;
  recording_truncated = c.recording_truncated;
  running_for_seconds =
      if is_running c.status then some ((now - c.started_at) / nanoseconds_per_second) else none;
  seconds_since_last_output = none;
}

-- `(?1 IS NULL OR session_id=?1) AND (?2 = 1 OR status='running')`.
unfoldable pub is_listed : (session_id : Option Text) (include_finished : Bool) → CommandInfo → Bool
unfolding is_running
is_listed none include_finished c = include_finished || is_running c.status
is_listed (some id) include_finished c =
    text_eq c.session_id id && (include_finished || is_running c.status)

unfoldable pub commands :
    (now : ℕ) (session_id : Option Text) (include_finished : Bool) (limit : ℕ)
    → Storage
    → List CommandSummary
unfolding is_listed newest_commands
commands now session_id include_finished limit db =
    map (summarize now)
      (take limit (newest_commands (keep (is_listed session_id include_finished) db.commands)))
