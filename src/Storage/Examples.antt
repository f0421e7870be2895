-- ===== src/Storage/Examples.antt =====
-- crates/storage/src/lib.rs: a small database on which the theorems apply.
use ai_ssh.Base.{
  ℕ, ◌<◌, ◌≤◌, ◌≡◌, ◌≢◌, ◌⊎◌, refl, Bool, true, false, List, [], ◌∷◌, none, some, arith,
}
use ai_ssh.Base.Lists.{length}
use ai_ssh.Base.Text.{codes, text_eq}
use ai_ssh.Protocol.Types.{
  SessionInfo, SessionStatus, CommandInfo, CommandStatus, TerminalEvent, StreamKind,
}
use ai_ssh.Storage.Tables.{sort_by_sequence, Storage, SessionRow, open_empty, payload_bytes}
use ai_ssh.Storage.Events.{
  matches, Column, same_place, selects, matching_events, events, page_events,
}
use ai_ssh.Storage.Events.Paging.{IsPageOf, events_page}
use ai_ssh.Storage.Events.Unique.{UniquePlaces, Belongs}
use ai_ssh.Storage.Events.Delivery.{poll_all, poll_all-eq-matching_events}
use ai_ssh.Storage.Accounts.Owned.{NotOthers}
use ai_ssh.Storage.Sessions.{owner, has_session, upsert_session}
use ai_ssh.Storage.Commands.{command, insert_command}
use ai_ssh.Storage.Accounts.History.{
  Operation, IsSound, AllRespect, apply, run, run-IsAccounted, open_empty-IsAccounted,
}

abbrev pub session_one : SessionInfo
session_one = record {
  id = codes "s";
  target_id = codes "t";
  target_name = codes "host";
  purpose = codes "test";
  client_name = codes "client";
  status = SessionStatus.exec_running;
  current_command = some (codes "ls");
  last_exit_code = none;
  recording_truncated = false;
  host_fingerprint = none;
  created_at = 1;
  updated_at = 1;
  closed_at = none;
}

abbrev pub command_one : CommandInfo
command_one = record {
  id = codes "c";
  session_id = codes "s";
  command = codes "ls";
  status = CommandStatus.running;
  exit_code = none;
  started_at = 1;
  finished_at = none;
  last_sequence = 2;
  recording_truncated = false;
  output_bytes = 3;
}

-- Output of the command.
abbrev pub output : (sequence : ℕ) (payload : List ℕ) (persisted : Bool) → TerminalEvent
output sequence payload persisted = record {
  session_id = codes "s";
  command_id = some (codes "c");
  sequence = sequence;
  timestamp = 2;
  stream = StreamKind.stdout;
  payload = payload;
  persisted = persisted;
}

abbrev pub row_one : SessionRow
row_one = record { info = session_one; recorded_bytes = 3 }

-- A session with one command and three bytes of output, of ten that are allowed.
abbrev pub db_one : Storage
db_one = record {
  sessions = row_one ∷ [];
  commands = command_one ∷ [];
  events = output 1 (65 ∷ []) true ∷ output 2 (66 ∷ 67 ∷ []) true ∷ [];
  recording_limit_bytes = 10;
}

-- The command that the event names is its session's when it is recorded.
is_own_command :
    let db =
      run (Operation.upsert session_one ∷ Operation.insert command_one ∷ []) (open_empty 1) in
    NotOthers db.commands (codes "s") (some (codes "c"))
unfolding run apply upsert_session insert_command has_session command owner text_eq open_empty
is_own_command s h = cc

abbrev history : List Operation
history =
    Operation.upsert session_one
    ∷ Operation.insert command_one
    ∷ Operation.append (output 1 (65 ∷ []) true)
    ∷ Operation.interrupt 5
    ∷ Operation.clean 6 30
    ∷ []

history-AllRespect : AllRespect history (open_empty 1)
unfolding run
history-AllRespect = (tt, (tt, (is_own_command, (tt, (tt, tt)))))

run-IsAccounted_example : IsSound (run history (open_empty 1))
unfolding open_empty
run-IsAccounted_example =
    run-IsAccounted history (open_empty 1) history-AllRespect
      (open_empty-IsAccounted 1 (omega arith), tt)

pub db_one-UniquePlaces : UniquePlaces db_one.events
unfolding same_place text_eq
db_one-UniquePlaces = ((refl, tt), (tt, tt))

pub db_one-Belongs : Belongs Column.by_command (codes "c") (codes "s") db_one.events
db_one-Belongs = (λ _. refl, (λ _. refl, tt))

rows_are_few : length (matching_events Column.by_command (codes "c") 0 db_one) < 3
unfolding matching_events selects sort_by_sequence matches text_eq
rows_are_few = omega arith

poll_all-eq-matching_events_example :
    poll_all 3 Column.by_command (codes "c") 0 1 db_one
    ≡ some (matching_events Column.by_command (codes "c") 0 db_one)
poll_all-eq-matching_events_example =
    poll_all-eq-matching_events Column.by_command (codes "c") (codes "s") 1 db_one
      db_one-UniquePlaces db_one-Belongs 3 0 rows_are_few

events_page_example :
    let page = events Column.by_session (codes "s") 0 1 db_one in
    let rows = matching_events Column.by_session (codes "s") 0 db_one in
    IsPageOf rows page
    × (length page.0 ≤ page_events)
    × ((length page.0 ≤ 1) ⊎ (payload_bytes page.0 ≤ 1))
    × ((rows ≡ []) ⊎ (page.0 ≢ []))
events_page_example = events_page Column.by_session (codes "s") 0 1 db_one
