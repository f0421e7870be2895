-- ===== src/Storage/Events.antt =====
-- crates/storage/src/lib.rs: the table `events`: recording up to the limit, and reading in pages.
pub mod Order
pub mod Paging
pub mod Snoc
pub mod Unique
pub mod Follow
pub mod Delivery
use ai_ssh.Base.{
  ℕ, zero, suc, ◌+◌, ◌-◌, ◌*◌, ◌^◌, ◌≤◌, ◌<◌, ◌≡◌, refl, Bool, true, false, not, ◌&&◌, ◌||◌, List,
  [], ◌∷◌, ◌++◌, Option, none, some,
}
use ai_ssh.Base.Tests.{ltb, leb, ◌==◌, if◌then◌else◌, is_some, is_none}
use ai_ssh.Base.Text.{Text, text_eq}
use ai_ssh.Base.Result.{Result, ok, err}
use ai_ssh.Base.Lists.{length, find, keep, take}
use ai_ssh.Protocol.Types.{SessionInfo, CommandInfo, TerminalEvent}
use ai_ssh.Storage.Tables.{
  Storage, StorageError, SessionRow, update_where, column_is, sort_by_sequence, payload_bytes,
}
use ai_ssh.Storage.Sessions.{session_is}
use ai_ssh.Storage.Commands.{command_is, command}

-- A `u64` sum that stops at the largest value.
abbrev pub saturating_add : ℕ → ℕ → ℕ
saturating_add a b = if ltb (2 ^ 64 - 1) (a + b) then 2 ^ 64 - 1 else a + b

-- `UPDATE sessions SET recording_truncated=1 WHERE id=?1`.
unfoldable pub mark_session_truncated : Text → List SessionRow → List SessionRow
mark_session_truncated id =
    update_where (session_is id)
      (λ r. record r { info = record (r.info) { recording_truncated = true } })

-- `UPDATE commands SET recording_truncated=1 WHERE id=?1`, for an event that has a command.
unfoldable pub mark_command_truncated : Option Text → List CommandInfo → List CommandInfo
mark_command_truncated none cs = cs
mark_command_truncated (some id) cs =
    update_where (command_is id) (λ c. record c { recording_truncated = true }) cs

-- `UPDATE sessions SET recorded_bytes=recorded_bytes+?2 WHERE id=?1`.
unfoldable pub count_session_bytes : Text → ℕ → List SessionRow → List SessionRow
count_session_bytes id n =
    update_where (session_is id) (λ r. record r { recorded_bytes = r.recorded_bytes + n })

-- `UPDATE commands SET recorded_bytes=recorded_bytes+?2,last_sequence=?3 WHERE id=?1`.
unfoldable pub count_command_bytes : Option Text → ℕ → ℕ → List CommandInfo → List CommandInfo
count_command_bytes none n sequence cs = cs
count_command_bytes (some id) n sequence cs =
    update_where (command_is id)
      (λ c. record c { output_bytes = c.output_bytes + n; last_sequence = sequence }) cs

-- `UNIQUE(session_id,sequence)`, and the foreign key from the event's command.
unfoldable pub same_place : TerminalEvent → TerminalEvent → Bool
same_place e f = text_eq f.session_id e.session_id && f.sequence == e.sequence

unfoldable pub command_known : Option Text → Storage → Bool
unfolding command
command_known none db = true
command_known (some id) db = is_some (command id db)

unfoldable pub can_insert : TerminalEvent → Storage → Bool
unfolding same_place command_known
can_insert e db = is_none (find (same_place e) db.events) && command_known e.command_id db

-- The branches of `append_event` once the session's row is known. The event comes back as it is left.
unfoldable pub append_over_limit : TerminalEvent → Storage → Storage
append_over_limit e db = record db {
  sessions = mark_session_truncated e.session_id db.sessions;
  commands = mark_command_truncated e.command_id db.commands;
}

unfoldable pub append_within_limit : TerminalEvent → Storage → Storage
append_within_limit e db = record db {
  sessions = count_session_bytes e.session_id (length e.payload) db.sessions;
  commands = count_command_bytes e.command_id (length e.payload) e.sequence db.commands;
  events = db.events ++ e ∷ [];
}

-- What `append_event` leaves: the database, the event with its flag, and the outcome.
pub record Appended : Type 0 where
  pub db : Storage
  pub event : TerminalEvent
  pub outcome : Result StorageError (Unit {0})

unfoldable pub append_to : SessionRow → TerminalEvent → Storage → Appended
append_to row event db =
    let over = record event { persisted = false } in
    let within = record event { persisted = true } in
    if ltb db.recording_limit_bytes (saturating_add row.recorded_bytes (length event.payload))
    then record { db = append_over_limit over db; event = over; outcome = ok tt }
    else if can_insert within db
    then record { db = append_within_limit within db; event = within; outcome = ok tt }
    else record { db = db; event = within; outcome = err StorageError.constraint }

unfoldable pub append_event : TerminalEvent → Storage → Appended
append_event event db = elim (find (session_is event.session_id) db.sessions) [
  | none ↦ record { db = db; event = event; outcome = err StorageError.no_rows }
  | some row ↦ append_to row event db
]

-- The column that a page is read by.
pub data Column : Type 0 where
  by_command by_session : Column

unfoldable pub selects : Column → Text → TerminalEvent → Bool
unfolding column_is
selects Column.by_command id e = column_is id e.command_id
selects Column.by_session id e = text_eq e.session_id id

-- `{column}=?1 AND sequence>?2`.
unfoldable pub matches : Column → Text → ℕ → TerminalEvent → Bool
matches column id after e = selects column id e && ltb after e.sequence

-- `WHERE {column}=?1 AND sequence>?2 ORDER BY sequence`, with no limit.
unfoldable pub matching_events : Column → Text → ℕ → Storage → List TerminalEvent
matching_events column id after db = sort_by_sequence (keep (matches column id after) db.events)

abbrev pub page_events : ℕ
page_events = 2048

-- The loop over the rows: `count` is `result.len()` and `size` the bytes so far.
unfoldable pub fill_page :
    (max_events max_bytes count size : ℕ) → List TerminalEvent → List TerminalEvent × Bool
fill_page max_events max_bytes count size [] = ([], false)
fill_page max_events max_bytes count size (e ∷ rows) =
    let rest = fill_page max_events max_bytes (count + 1) (size + length e.payload) rows in
    if (count == max_events) || (ltb 0 count && ltb max_bytes (size + length e.payload))
    then ([], true)
    else (e ∷ rest.0, rest.1)

unfoldable pub events : Column → Text → (after max_bytes : ℕ) → Storage → List TerminalEvent × Bool
events column id after max_bytes db =
    fill_page page_events max_bytes 0 0
      (take (page_events + 1) (matching_events column id after db))

unfoldable pub events_for_command :
    Text → (after max_bytes : ℕ) → Storage → List TerminalEvent × Bool
events_for_command id after max_bytes db = events Column.by_command id after max_bytes db

unfoldable pub events_for_session :
    Text → (after max_bytes : ℕ) → Storage → List TerminalEvent × Bool
events_for_session id after max_bytes db = events Column.by_session id after max_bytes db
