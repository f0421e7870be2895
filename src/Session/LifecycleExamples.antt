-- ===== src/Session/LifecycleExamples.antt =====
-- crates/session/src/lib.rs: runs of a manager on which the theorems on its operations apply.
use ai_ssh.Base.{
  ℕ, ◌+◌, ◌<◌, ◌≤◌, ◌≡◌, ◌⊎◌, refl, Bool, true, false, not, List, [], ◌∷◌, ◌++◌, none, some, arith,
  inl,
}
use ai_ssh.Base.Tests.{ltb, ◌==◌, if◌then◌else◌}
use ai_ssh.Base.Lists.{length, is_empty, find}
use ai_ssh.Base.Text.{codes, text_eq}
use ai_ssh.Base.Result.{ok, err}
use ai_ssh.Config.Examples.{config_one}
use ai_ssh.Config.Types.{Config}
use ai_ssh.Ssh.Channel.{ChannelEvent}
use ai_ssh.Ssh.Command.{build_command}
use ai_ssh.Config.Paths.{Paths, under}
use ai_ssh.Protocol.Types.{is_closed, CommandInfo, TerminalEvent, StreamKind, CommandStatus}
use ai_ssh.Protocol.Messages.{ErrorPayload}
use ai_ssh.Storage.Tables.{update_where, Storage, payload_bytes, open_empty, sort_by_sequence}
use ai_ssh.Storage.Sessions.{session_is, has_session}
use ai_ssh.Storage.Commands.{insert_command}
use ai_ssh.Storage.Events.{saturating_add, command_known, matching_events, matches, selects}
use ai_ssh.Storage.Events.Order.{Ascends}
use ai_ssh.Session.Page.{is_wanted}
use ai_ssh.Storage.Examples.{row_one, db_one, db_one-Belongs}
use ai_ssh.Session.Runtime.{Connection, SessionRuntime, SessionManager, lookup}
use ai_ssh.Session.Record.{live_limit_bytes}
use ai_ssh.Session.Record.Loss.{IsNumbered, event, after, record_event_lem}
use ai_ssh.Session.Record.Ordered.{recorded, record_event-Ascends}
use ai_ssh.Session.Connect.{Dial, connection_for, dial_loop, attempts}
use ai_ssh.Session.Connect.Attempts.{AllFail, dial_loop_lem}
use ai_ssh.Session.Exec.{ExecRequest, Outside, ExecInput, Timed, start_on, new_command, exec_loop}
use ai_ssh.Session.Exec.Outcome.{
  IsStarted, StatusAgrees, start_on-IsStarted, exec_loop-StatusAgrees,
}
use ai_ssh.Session.Lifecycle.{new, create, close}
use ai_ssh.Session.Steps.{Step, Steps}
use ai_ssh.Session.Steps.Closed.{AllConsistent, HasClosed}
use ai_ssh.Session.Steps.Reachable.{Steps-AllConsistent, closed_stays_closed}
use ai_ssh.Session.Examples.{runtime_one}

abbrev root_paths : Paths
root_paths = under (codes "/r")

abbrev host : Connection
host = record { fingerprint = codes "SHA256:x"; is_closed = false }

abbrev at_start : SessionManager
at_start = new config_one root_paths (open_empty 1)

abbrev with_session : SessionManager
with_session =
    (create 1 2 3 (codes "u") (ok host) (codes "t") (codes "test") (codes "client") at_start).1

abbrev closed_session : SessionManager
closed_session = (close 5 (codes "u") with_session).1

no_session_yet : lookup (codes "u") at_start ≡ none
unfolding lookup new
no_session_yet = refl

make_and_close : Steps at_start closed_session
make_and_close =
    Steps.then_step
      (Steps.then_step Steps.done (
        Step.creates 1 2 3 (codes "u") (ok host) (codes "t") (codes "test") (codes "client")
          no_session_yet))
      (Step.closes 5 (codes "u"))

Steps-AllConsistent_example : AllConsistent closed_session
Steps-AllConsistent_example =
    Steps-AllConsistent config_one root_paths (open_empty 1) closed_session make_and_close

is_closed_now : HasClosed (codes "u") closed_session
unfolding new create close text_eq update_where is_closed
is_closed_now = (_, refl, refl)

abbrev reaped : SessionManager
reaped = (close 9 (codes "u") closed_session).1

closed_stays_closed_example : HasClosed (codes "u") reaped
closed_stays_closed_example =
    closed_stays_closed config_one root_paths (open_empty 1) closed_session reaped (codes "u")
      make_and_close is_closed_now (Steps.then_step Steps.done (Step.closes 9 (codes "u")))

-- The second attempt succeeds.
abbrev second : Dial
second attempt = if attempt == 2 then ok host else err (codes "refused")

abbrev config_two : Config
config_two = record config_one { reconnect_attempts = 3 }

dial_loop_lem_example :
    (0 < attempts config_two)
    × (attempts config_two ≤ 10)
    × (((k : ℕ) × (connection : Connection) × (k < attempts config_two)
          × AllFail second 1 k
          × (second (1 + k) ≡ ok connection)
          × (dial_loop (attempts config_two) 1 second none ≡ ok connection))
        ⊎ ((e : ErrorPayload) × AllFail second 1 (attempts config_two)
            × (dial_loop (attempts config_two) 1 second none ≡ err e)))
dial_loop_lem_example = dial_loop_lem config_two second

abbrev inputs : List Timed
inputs =
    record { now = 1; instant = 1; input = ExecInput.channel (some (ChannelEvent.exit_status 3)) }
    ∷ record { now = 2; instant = 2; input = ExecInput.channel none }
    ∷ []

inputs_end :
    (exec_loop (codes "c") inputs none (runtime_one, db_one)).0
    ≡ some (record { status = CommandStatus.failed; exit = some 3 })
unfolding exec_loop
inputs_end = refl

exec_loop-StatusAgrees_example :
    StatusAgrees (record { status = CommandStatus.failed; exit = some 3 })
exec_loop-StatusAgrees_example =
    exec_loop-StatusAgrees (codes "c") inputs none (runtime_one, db_one)
      (record { status = CommandStatus.failed; exit = some 3 }) inputs_end

abbrev pub idle_runtime : SessionRuntime
idle_runtime = record runtime_one { foreground = none }

abbrev pub request : ExecRequest
request = record {
  session_id = codes "s";
  command = codes "ls";
  cwd = none;
  env = [];
  timeout_seconds = none;
  background = false;
}

abbrev pub meets : Outside
meets = record { now = 7; uuid = codes "d"; debug = λ t. t; dial = second; opens = ok tt }

abbrev pub started : CommandInfo
started = new_command meets request

it_starts : (start_on config_one meets request (idle_runtime, db_one)).0 ≡ ok started
unfolding start_on text_eq build_command connection_for insert_command has_session
it_starts = refl

start_on-IsStarted_example :
    IsStarted request started (start_on config_one meets request (idle_runtime, db_one)).1
    × ((request.background ≡ true) ⊎ (idle_runtime.foreground ≡ none))
start_on-IsStarted_example =
    start_on-IsStarted config_one meets request idle_runtime db_one started it_starts

runtime_one-IsNumbered : IsNumbered runtime_one db_one
runtime_one-IsNumbered = (λ _. omega arith, (λ _. omega arith, tt))

one_is_found : find (session_is (codes "s")) db_one.sessions ≡ some row_one
unfolding text_eq
one_is_found = refl

c_is_known : command_known (some (codes "c")) db_one ≡ true
unfolding command_known text_eq
c_is_known = refl

abbrev payload : List ℕ
payload = 1 ∷ 2 ∷ []

abbrev next_event : TerminalEvent
next_event = event 8 20 (some (codes "c")) StreamKind.stdout payload runtime_one db_one

abbrev left : SessionRuntime × Storage
left = after 8 20 (some (codes "c")) StreamKind.stdout payload runtime_one db_one

abbrev is_full : Bool
is_full = ltb db_one.recording_limit_bytes (saturating_add row_one.recorded_bytes (length payload))

record_event_lem_example :
    ((is_full ≡ false)
      × (left.1.events ≡ db_one.events ++ next_event ∷ [])
      × (left.0.live_events ≡ runtime_one.live_events)
      × (left.0.live_tail_dropped ≡ runtime_one.live_tail_dropped))
    ⊎ ((dropped : List TerminalEvent) × (is_full ≡ true)
        × (left.1.events ≡ db_one.events)
        × (left.0.recording_truncated ≡ true)
        × (runtime_one.live_events ++ record next_event { persisted = false } ∷ []
            ≡ dropped ++ left.0.live_events)
        × (payload_bytes left.0.live_events ≤ live_limit_bytes)
        × (left.0.live_tail_dropped
            ≡ (if not (is_empty dropped) then true else runtime_one.live_tail_dropped)))
record_event_lem_example =
    record_event_lem 8 20 (some (codes "c")) StreamKind.stdout payload runtime_one db_one row_one
      one_is_found runtime_one-IsNumbered c_is_known

abbrev no_rows : Storage
no_rows = record db_one { sessions = [] }

abbrev large : List ℕ
large = 0 ∷ 1 ∷ 2 ∷ 3 ∷ 4 ∷ 5 ∷ 6 ∷ 7 ∷ 8 ∷ 9 ∷ []

output_rises : Ascends 0 (recorded (codes "c") db_one runtime_one.live_events)
unfolding matching_events matches selects sort_by_sequence text_eq is_wanted
output_rises = (omega arith, (omega arith, (omega arith, tt)))

large_is_over :
    ltb db_one.recording_limit_bytes (saturating_add row_one.recorded_bytes (length large)) ≡ true
large_is_over = refl

record_event-Ascends_example :
    let full = after 8 20 (some (codes "c")) StreamKind.stdout large runtime_one db_one in
    Ascends 0 (recorded (codes "c") full.1 full.0.live_events)
record_event-Ascends_example =
    record_event-Ascends (codes "c") runtime_one 8 20 (some (codes "c")) StreamKind.stdout large
      db_one row_one one_is_found runtime_one-IsNumbered c_is_known db_one-Belongs (omega arith, tt)
      output_rises (inl large_is_over)
