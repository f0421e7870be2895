-- ===== src/Session/Examples.antt =====
-- crates/session/src/lib.rs: a manager on which the theorems on pages and records apply.
use ai_ssh.Base.{
  ◌<◌, ◌≤◌, ◌≡◌, ◌↔◌, ◌⊎◌, refl, true, false, not, List, [], ◌∷◌, ◌++◌, min, none, some, arith,
}
use ai_ssh.Base.Tests.{if◌then◌else◌}
use ai_ssh.Base.Lists.{length, is_empty}
use ai_ssh.Base.Text.{codes, text_eq}
use ai_ssh.Base.Result.{ok}
use ai_ssh.Config.Examples.{config_one}
use ai_ssh.Config.Paths.{under}
use ai_ssh.Protocol.Types.{
  CommandInfo, TerminalEvent, CommandStatus, EventProgress, max_wait_seconds,
}
use ai_ssh.Storage.Tables.{payload_bytes, sort_by_sequence}
use ai_ssh.Storage.Events.{events, fill_page, matching_events, matches, selects}
use ai_ssh.Storage.Commands.{command}
use ai_ssh.Storage.Events.Order.{Ascends, cursor}
use ai_ssh.Storage.Examples.{session_one, command_one, db_one, output}
use ai_ssh.Session.Errors.{classify_error, ssh_error}
use ai_ssh.Session.Errors.Classify.{HasCode, classify_error_iff}
use ai_ssh.Session.Runtime.{Foreground, SessionRuntime, SessionManager, lookup}
use ai_ssh.Session.Record.{keep_live}
use ai_ssh.Session.Record.Buffer.{keep_live_lem, IsNeeded}
use ai_ssh.Session.Page.{append_live, is_wanted, events_response, read_page_of, PollPage}
use ai_ssh.Session.Page.Delivery.{output_above, page_of, poll_command, poll_command-eq-output_above}
use ai_ssh.Session.Page.Skips.{append_live_skips}
use ai_ssh.Session.Page.Complete.{delivery_complete}
use ai_ssh.Session.Poll.{events_receiver, View, command_poll, read_limit}
use ai_ssh.Session.Poll.Answers.{Answers, command_poll-Answers}

-- The session of the small database runs its command, and keeps one event that was not stored.
abbrev pub runtime_one : SessionRuntime
runtime_one = record {
  session_id = codes "s";
  info = session_one;
  connection = some (record { fingerprint = codes "SHA256:x"; is_closed = false });
  foreground = some (Foreground.exec (codes "c"));
  background = [];
  cancelled = [];
  sequence = 3;
  recording_truncated = true;
  live_tail_dropped = false;
  last_activity = 10;
  last_output_at = some 10;
  live_events = output 3 (70 ∷ 71 ∷ 72 ∷ 73 ∷ []) false ∷ [];
  events_tx = 3;
}

abbrev pub manager_one : SessionManager
manager_one = record {
  config = config_one;
  paths = under (codes "/r");
  storage = db_one;
  sessions = runtime_one ∷ [];
}

output_rises : Ascends 0 (output_above command_one manager_one 0)
unfolding output_above matching_events matches selects sort_by_sequence text_eq lookup is_wanted
output_rises = (omega arith, (omega arith, (omega arith, tt)))

output_is_short : length (output_above command_one manager_one 0) < 4
unfolding output_above matching_events matches selects sort_by_sequence text_eq lookup is_wanted
output_is_short = omega arith

poll_command-eq-output_above_example :
    poll_command 4 command_one 0 2 manager_one ≡ some (output_above command_one manager_one 0)
poll_command-eq-output_above_example =
    poll_command-eq-output_above command_one 2 manager_one output_rises 4 0 output_is_short

abbrev command_over : CommandInfo
command_over = record command_one { status = CommandStatus.completed; exit_code = some 0 }

over_rises : Ascends 0 (output_above command_over manager_one 0)
unfolding output_above matching_events matches selects sort_by_sequence text_eq lookup is_wanted
over_rises = (omega arith, (omega arith, (omega arith, tt)))

abbrev no_progress : EventProgress
no_progress = record {
  seconds_since_last_output = none;
  live_tail_dropped = false;
  timed_out = false;
  waited_seconds = 0;
}

over_is_complete :
    (let page = page_of command_over 0 100 manager_one in
      delivery_complete (events_response (some command_over) [] page.0 0 page.1 [] no_progress))
    ≡ true
unfolding delivery_complete events_response read_page_of text_eq events fill_page matching_events
    sort_by_sequence matches selects payload_bytes
over_is_complete = refl

-- Event 2 was kept in memory, since it passed the limit; event 3 was stored after it.
abbrev stored_events : List TerminalEvent
stored_events = output 1 (65 ∷ []) true ∷ output 3 (66 ∷ []) true ∷ []

append_live_skips_example :
    let page =
      append_live
        (output 2 (70 ∷ 71 ∷ 72 ∷ 73 ∷ []) false ∷ [])
        0
        4
        (some (codes "c"))
        (stored_events, false) in
    (page ≡ (stored_events, true))
    × (is_wanted (cursor 0 page.0) (some (codes "c")) (output 2 (70 ∷ 71 ∷ 72 ∷ 73 ∷ []) false)
        ≡ false)
unfolding is_wanted cursor payload_bytes text_eq
append_live_skips_example =
    append_live_skips stored_events [] (output 2 (70 ∷ 71 ∷ 72 ∷ 73 ∷ []) false) 0 4
      (some (codes "c")) (omega arith, (omega arith, tt)) (λ e. cc) refl (omega arith) (omega arith)

keep_live_lem_example :
    let event = output 4 (70 ∷ 71 ∷ []) false in
    let after = keep_live 3 event runtime_one in
    (dropped : List TerminalEvent) × (runtime_one.live_events ++ event ∷ []
      ≡ dropped ++ after.live_events)
    × (payload_bytes after.live_events ≤ 3)
    × IsNeeded 3 dropped after.live_events
    × (after.live_tail_dropped
        ≡ (if not (is_empty dropped) then true else runtime_one.live_tail_dropped))
keep_live_lem_example = keep_live_lem 3 (output 4 (70 ∷ 71 ∷ []) false) runtime_one

classify_error_iff_example :
    ((classify_error (codes "AUTH_FAILED: no")).retryable ≡ false
      ↔ HasCode (codes "AUTH_FAILED: no"))
    × (HasCode (codes "AUTH_FAILED: no")
        ⊎ (classify_error (codes "AUTH_FAILED: no") ≡ ssh_error (codes "AUTH_FAILED: no")))
classify_error_iff_example = classify_error_iff (codes "AUTH_FAILED: no")

abbrev view_one : View
view_one = record { now = 20; manager = manager_one }

command_poll-Answers_example :
    (r : PollPage) × (command_poll (codes "c") 3 10 1 view_one (view_one ∷ []) view_one ≡ ok r)
    × Answers
        (codes "c")
        3
        (read_limit 10)
        (min 1 max_wait_seconds)
        view_one.now
        (events_receiver (codes "c") view_one.manager)
        view_one
        (view_one ∷ [])
        view_one
        r
unfolding command text_eq
command_poll-Answers_example =
    command_poll-Answers (codes "c") 3 10 1 view_one (view_one ∷ []) view_one (command_one, refl)
      ((command_one, refl), tt) (command_one, refl)
