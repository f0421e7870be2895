-- ===== src/Session/Poll.antt =====
-- crates/session/src/lib.rs: `command_poll` and `shell_read`, which wait for output.
use ai_ssh.Base.{
  ℕ, zero, ◌+◌, ◌-◌, ◌*◌, ◌≤◌, ◌≡◌, ◌⊎◌, refl, Bool, true, false, not, ◌&&◌, ◌||◌, List, [], ◌∷◌,
  ◌++◌, Option, none, some, min, max, arith, inl, inr,
}
use ai_ssh.Base.Tests.{ltb, ◌==◌, if◌then◌else◌, is_some, is_none, Bool-cases}
use ai_ssh.Base.Lists.{is_empty}
use ai_ssh.Base.Text.{Text, text_eq}
use ai_ssh.Base.Result.{Result, ok, err, ◌>>=◌}
use ai_ssh.Protocol.Types.{max_wait_seconds, CommandInfo, TerminalEvent, EventProgress}
use ai_ssh.Protocol.Messages.{ApiResult}
use ai_ssh.Storage.Commands.{command, latest_command_for_session}
use ai_ssh.Storage.Sessions.{session}
use ai_ssh.Storage.Events.{events_for_session}
use ai_ssh.Session.Errors.{session_not_found}
use ai_ssh.Session.Runtime.{SessionRuntime, SessionManager, lookup}
use ai_ssh.Session.Page.{
  CommandPage, PollPage, quiet, read_command_page, finish_poll, with_live, shell_progress,
}
pub mod Answers

abbrev pub max_read_bytes : ℕ
max_read_bytes = 1024 * 1024

-- What others have made of the manager, and the time, when the code looks at it again.
pub record View : Type 0 where
  pub now : ℕ
  pub manager : SessionManager

-- `clamp(1, MAX_READ_BYTES)`.
abbrev pub read_limit : ℕ → ℕ
read_limit max_bytes = min (max max_bytes 1) max_read_bytes

-- `events_receiver`: whether the command's session has a runtime to wait on.
unfoldable pub events_receiver : Text → SessionManager → Bool
unfolding lookup
events_receiver id m = elim (command id m.storage) [
  | none ↦ false
  | some c ↦ is_some (lookup c.session_id m)
]

-- The loop of `command_poll`. `woken` has the views at which the receiver reported output before the
-- deadline, `last` the view where the wait ends: at the deadline, or when the sender was dropped.
unfoldable pub poll_loop :
    (id : Text) (after limit budget started : ℕ) (receives : Bool)
    → View
    → List View
    → (last : View) → ApiResult PollPage
poll_loop id after limit budget started receives view [] last =
    read_command_page id after limit view.manager >>= λ page.
    if not (quiet page) || (budget == 0)
    then ok (finish_poll view.now page after false started)
    else if not receives
    then ok (finish_poll view.now page after true started)
    else (read_command_page id after limit last.manager >>= λ later.
        ok (finish_poll last.now later after true started))
poll_loop id after limit budget started receives view (next ∷ woken) last =
    let rest = poll_loop id after limit budget started receives next woken last in
    read_command_page id after limit view.manager >>= λ page.
    if not (quiet page) || (budget == 0)
    then ok (finish_poll view.now page after false started)
    else if not receives
    then ok (finish_poll view.now page after true started)
    else rest

unfoldable pub command_poll :
    Text
    → (after max_bytes wait_seconds : ℕ) → (first : View) (woken : List View) (last : View)
    → ApiResult PollPage
unfolding poll_loop events_receiver
command_poll id after max_bytes wait_seconds first woken last =
    poll_loop id after (read_limit max_bytes) (min wait_seconds max_wait_seconds) first.now
      (events_receiver id first.manager) first woken last

pub record ShellPage : Type 0 where
  pub commands : List CommandInfo
  pub events : List TerminalEvent
  pub more : Bool
  pub progress : EventProgress

-- A `BTreeSet` of ids: ascending, each once.
abbrev text_lt : Text → Text → Bool
text_lt [] [] = false
text_lt [] (d ∷ t) = true
text_lt (c ∷ s) [] = false
text_lt (c ∷ s) (d ∷ t) = ltb c d || ((c == d) && text_lt s t)

unfoldable pub insert_id : Text → List Text → List Text
insert_id id [] = id ∷ []
insert_id id (other ∷ ids) =
    if text_eq id other
    then other ∷ ids
    else if text_lt id other
    then id ∷ other ∷ ids
    else other ∷ insert_id id ids

unfoldable pub event_ids : List TerminalEvent → List Text
unfolding insert_id
event_ids [] = []
event_ids (e ∷ es) = elim e.command_id [
  | none ↦ event_ids es
  | some id ↦ insert_id id (event_ids es)
]

unfoldable pub with_latest : Option CommandInfo → List Text → List Text
unfolding insert_id
with_latest none ids = ids
with_latest (some c) ids = insert_id c.id ids

unfoldable pub known_commands : List Text → SessionManager → List CommandInfo
known_commands [] m = []
known_commands (id ∷ ids) m = elim (command id m.storage) [
  | none ↦ known_commands ids m
  | some c ↦ c ∷ known_commands ids m
]

-- `read_shell_page`, without the progress.
unfoldable pub read_shell_page :
    Text
    → (after limit : ℕ) → SessionManager
    → List CommandInfo × List TerminalEvent × Bool × Option SessionRuntime
unfolding with_live events_for_session lookup event_ids with_latest known_commands
read_shell_page id after limit m =
    let rt = lookup id m in
    let page = with_live rt after limit none (events_for_session id after limit m.storage) in
    let ids = with_latest (latest_command_for_session id m.storage) (event_ids page.0) in
    (known_commands ids m, page.0, page.1, rt)

abbrev shell_page :
    (now started : ℕ) (timed_out : Bool)
    → List CommandInfo × List TerminalEvent × Bool × Option SessionRuntime
    → ShellPage
shell_page now started timed_out (commands, events, more, rt) = record {
  commands = commands;
  events = events;
  more = more;
  progress = shell_progress now timed_out started rt;
}

unfoldable pub shell_loop :
    (id : Text) (after limit budget started : ℕ) (receives : Bool)
    → View
    → List View
    → (last : View) → ShellPage
unfolding read_shell_page shell_progress
shell_loop id after limit budget started receives view [] last =
    let page = read_shell_page id after limit view.manager in
    if not (is_empty page.1 && not page.2) || (budget == 0)
    then shell_page view.now started false page
    else if not receives
    then shell_page view.now started true page
    else shell_page last.now started true (read_shell_page id after limit last.manager)
shell_loop id after limit budget started receives view (next ∷ woken) last =
    let page = read_shell_page id after limit view.manager in
    let rest = shell_loop id after limit budget started receives next woken last in
    if not (is_empty page.1 && not page.2) || (budget == 0)
    then shell_page view.now started false page
    else if not receives
    then shell_page view.now started true page
    else rest

-- `shell_read`. A session that has neither a runtime nor a row is refused.
unfoldable pub shell_read :
    Text
    → (after max_bytes wait_seconds : ℕ) → (first : View) (woken : List View) (last : View)
    → ApiResult ShellPage
unfolding shell_loop lookup
shell_read id after max_bytes wait_seconds first woken last =
    let receives = is_some (lookup id first.manager) in
    if not receives && is_none (session id first.manager.storage)
    then err (session_not_found id)
    else ok (
        shell_loop id after (read_limit max_bytes) (min wait_seconds max_wait_seconds) first.now
          receives first woken last)
