-- ===== src/Session/Record.antt =====
-- crates/session/src/lib.rs: `record`, which gives an event its number and stores it, or keeps it in
-- memory when the recording limit is reached.
pub mod Buffer
pub mod Loss
pub mod Ordered
use ai_ssh.Base.{
  ℕ, ◌+◌, ◌-◌, ◌*◌, ◌%◌, ◌^◌, ◌≡◌, Bool, true, false, List, [], ◌∷◌, ◌++◌, Option, none, some,
}
use ai_ssh.Base.Tests.{ltb, if◌then◌else◌}
use ai_ssh.Base.Lists.{length}
use ai_ssh.Base.Text.{Text}
use ai_ssh.Protocol.Types.{TerminalEvent, StreamKind}
use ai_ssh.Storage.Tables.{Storage, payload_bytes}
use ai_ssh.Storage.Events.{Appended, append_event}
use ai_ssh.Session.Runtime.{SessionRuntime}

abbrev pub live_limit_bytes : ℕ
live_limit_bytes = 4 * 1024 * 1024

-- The `while` loop over the oldest events: what is left, and whether one was dropped.
unfoldable pub trim_live : (limit bytes : ℕ) → List TerminalEvent → List TerminalEvent × Bool
trim_live limit bytes [] = ([], false)
trim_live limit bytes (old ∷ live) =
    let rest = trim_live limit (bytes - length old.payload) live in
    if ltb limit bytes then (rest.0, true) else (old ∷ live, false)

-- The branch for an event that was not stored.
unfoldable pub keep_live : (limit : ℕ) → TerminalEvent → SessionRuntime → SessionRuntime
unfolding trim_live
keep_live limit event rt =
    let live = rt.live_events ++ event ∷ [] in
    let trimmed = trim_live limit (payload_bytes live) live in
    record rt {
      recording_truncated = true;
      live_events = trimmed.0;
      live_tail_dropped = if trimmed.1 then true else rt.live_tail_dropped;
    }

-- The event as it is before it is stored.
unfoldable pub new_event :
    (now : ℕ) → SessionRuntime → Option Text → StreamKind → List ℕ → TerminalEvent
new_event now rt command_id stream payload = record {
  session_id = rt.session_id;
  command_id = command_id;
  sequence = rt.sequence + 1;
  timestamp = now;
  stream = stream;
  payload = payload;
  persisted = true;
}

-- `record`. `now` is the wall clock and `instant` the monotonic clock. The outcome of the storage is
-- not looked at, as in the source. The sequence is a `u64` that no session exhausts.
unfoldable pub record_event :
    (now instant : ℕ)
    → Option Text
    → StreamKind
    → List ℕ
    → SessionRuntime × Storage
    → SessionRuntime × Storage
unfolding new_event
record_event now instant command_id stream payload (rt, db) =
    let stored = append_event (new_event now rt command_id stream payload) db in
    let counted = record rt { sequence = rt.sequence + 1; last_activity = instant } in
    let kept =
      if stored.event.persisted then counted else keep_live live_limit_bytes stored.event counted in
    (
      record kept { last_output_at = some instant; events_tx = (rt.events_tx + 1) % 2 ^ 64 },
      stored.db,
    )
