-- ===== src/Session/Page.antt =====
-- crates/session/src/lib.rs: one page of output, read from storage and then from the buffer of
-- events that were not stored.
pub mod Live
pub mod Delivery
pub mod Skips
pub mod Complete
use Prim.Native.String.{String}
use ai_ssh.Base.{
  ℕ, ◌+◌, ◌-◌, ◌*◌, ◌/◌, ◌≡◌, Bool, true, false, not, ◌&&◌, ◌||◌, List, [], ◌∷◌, ◌++◌, Option, none,
  some,
}
use ai_ssh.Base.Tests.{ltb, ◌==◌, if◌then◌else◌, is_some}
use ai_ssh.Base.Lists.{length, is_empty, keep}
use ai_ssh.Base.Text.{Text, text_eq}
use ai_ssh.Base.Result.{ok_or, ok, ◌>>=◌}
use ai_ssh.Protocol.Types.{
  CommandInfo, CommandStatus, EventProgress, TerminalEvent, is_running, is_interrupted,
}
use ai_ssh.Protocol.Messages.{ApiResult, ResponseData}
use ai_ssh.Storage.Tables.{column_is, sort_by_sequence, payload_bytes}
use ai_ssh.Storage.Commands.{command, latest_command_for_session}
use ai_ssh.Storage.Events.{events_for_command, events_for_session}
use ai_ssh.Storage.Events.Order.{cursor}
use ai_ssh.Session.Errors.{command_not_found}
use ai_ssh.Session.Runtime.{SessionRuntime, SessionManager, lookup}

-- The filter of `append_live`.
unfoldable pub is_wanted : (after : ℕ) → Option Text → TerminalEvent → Bool
unfolding column_is
is_wanted after none e = ltb after e.sequence
is_wanted after (some id) e = ltb after e.sequence && column_is id e.command_id

-- The loop of `append_live`: the events so far, `size` their bytes, and the flag `more`.
unfoldable pub add_live :
    (limit size : ℕ) → (events live : List TerminalEvent) → List TerminalEvent × Bool
add_live limit size events [] = (events, false)
add_live limit size events (e ∷ live) =
    let rest = add_live limit (size + length e.payload) (events ++ e ∷ []) live in
    if not (is_empty events) && ltb limit (size + length e.payload) then (events, true) else rest

unfoldable pub append_live :
    (live : List TerminalEvent) (after limit : ℕ)
    → Option Text
    → List TerminalEvent × Bool
    → List TerminalEvent × Bool
unfolding add_live is_wanted
append_live live after limit command_id (events, more) =
    let added =
      add_live limit (payload_bytes events) events (keep (is_wanted after command_id) live) in
    if more then (events, true) else (sort_by_sequence added.0, added.1)

-- The events and the flag of a page, when the session has a runtime and when it has none.
unfoldable pub with_live :
    Option SessionRuntime
    → (after limit : ℕ) → Option Text
    → List TerminalEvent × Bool
    → List TerminalEvent × Bool
unfolding append_live
with_live none after limit command_id page = page
with_live (some rt) after limit command_id page =
    append_live rt.live_events after limit command_id page

pub record CommandPage : Type 0 where
  pub command : CommandInfo
  pub events : List TerminalEvent
  pub more : Bool
  pub runtime : Option SessionRuntime

-- `CommandPage::quiet`.
unfoldable pub quiet : CommandPage → Bool
unfolding is_running
quiet page = is_empty page.events && not page.more && is_running page.command.status

unfoldable pub load_command : Text → SessionManager → ApiResult CommandInfo
load_command id m = ok_or (command id m.storage) (command_not_found id)

unfoldable pub read_page_of : CommandInfo → (after limit : ℕ) → SessionManager → CommandPage
unfolding with_live events_for_command lookup
read_page_of c after limit m =
    let rt = lookup c.session_id m in
    let page =
      with_live rt after limit (some c.id) (events_for_command c.id after limit m.storage) in
    record { command = c; events = page.0; more = page.1; runtime = rt }

unfoldable pub read_command_page : Text → (after limit : ℕ) → SessionManager → ApiResult CommandPage
unfolding load_command
read_command_page id after limit m = load_command id m >>= λ c. ok (read_page_of c after limit m)

-- `instant.elapsed().as_secs()`, of milliseconds.
abbrev pub elapsed_seconds : (now started : ℕ) → ℕ
elapsed_seconds now started = (now - started) / 1000

unfoldable pub seconds_since_output : (now : ℕ) → Option SessionRuntime → Option ℕ
seconds_since_output now none = none
seconds_since_output now (some rt) = elim rt.last_output_at [
  | none ↦ none
  | some at ↦ some (elapsed_seconds now at)
]

unfoldable pub has_dropped : Option SessionRuntime → Bool
has_dropped none = false
has_dropped (some rt) = rt.live_tail_dropped

unfoldable pub progress_for :
    (now : ℕ)
    → CommandInfo
    → Option SessionRuntime
    → (timed_out : Bool) → (waited : ℕ) → EventProgress
unfolding seconds_since_output has_dropped
progress_for now c rt timed_out waited = record {
  seconds_since_last_output = if is_running c.status then seconds_since_output now rt else none;
  live_tail_dropped = has_dropped rt;
  timed_out = timed_out;
  waited_seconds = waited;
}

unfoldable pub shell_progress :
    (now : ℕ) → (timed_out : Bool) → (started : ℕ) → Option SessionRuntime → EventProgress
unfolding seconds_since_output has_dropped
shell_progress now timed_out started rt = record {
  seconds_since_last_output = seconds_since_output now rt;
  live_tail_dropped = has_dropped rt;
  timed_out = timed_out;
  waited_seconds = elapsed_seconds now started;
}

pub record PollPage : Type 0 where
  pub command : CommandInfo
  pub events : List TerminalEvent
  pub more : Bool
  pub warnings : List String
  pub progress : EventProgress

abbrev warn_if : Bool → String → List String
warn_if true text = text ∷ []
warn_if false text = []

abbrev pub limit_warning : String
limit_warning =
    "the session recording limit dropped earlier output; it is no longer available from storage"

abbrev pub dropped_warning : String
dropped_warning =
    "the in-memory overflow buffer dropped its oldest output; some output is unrecoverable"

abbrev pub started_warning : String
started_warning =
    "the SSH transport dropped before an exit status arrived; this command did produce output, so the remote process started and may still be running"

abbrev pub unknown_warning : String
unknown_warning =
    "the SSH transport dropped before an exit status arrived and no output was received; whether the remote process started is unknown"

abbrev pub silent_warning : String
silent_warning = "command finished without producing stdout or stderr events"

unfoldable pub poll_warnings : CommandPage → (after : ℕ) → List String
unfolding has_dropped is_interrupted is_running
poll_warnings page after =
    let c = page.command in
    warn_if c.recording_truncated limit_warning
    ++ (warn_if (has_dropped page.runtime) dropped_warning
        ++ (warn_if (is_interrupted c.status)
              (if ltb 0 c.output_bytes then started_warning else unknown_warning)
            ++ warn_if ((after == 0) && (is_empty page.events && not (is_running c.status)))
                silent_warning))

unfoldable pub finish_poll :
    (now : ℕ) → CommandPage → (after : ℕ) → (timed_out : Bool) → (started : ℕ) → PollPage
unfolding poll_warnings progress_for
finish_poll now page after timed_out started = record {
  command = page.command;
  events = page.events;
  more = page.more;
  warnings = poll_warnings page after;
  progress = progress_for now page.command page.runtime timed_out (elapsed_seconds now started);
}

abbrev is_over_command : Option CommandInfo → Bool
is_over_command none = false
is_over_command (some c) = not (is_running c.status)

unfoldable pub events_response :
    Option CommandInfo
    → List CommandInfo
    → List TerminalEvent
    → (after : ℕ) → (more : Bool) → List String
    → EventProgress
    → ResponseData
unfolding cursor is_running
events_response command commands events after more warnings progress =
    ResponseData.events command commands events (cursor after events) more
      (is_over_command command && not more) warnings progress
