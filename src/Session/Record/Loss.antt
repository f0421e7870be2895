-- ===== src/Session/Record/Loss.antt =====
-- crates/session/src/lib.rs: where the output that `record` is given goes, and when it is lost.
use ai_ssh.Base.{
  ℕ, ◌+◌, ◌≤◌, ◌<◌, ◌≡◌, ◌⊎◌, refl, true, false, not, List, [], ◌∷◌, ◌++◌, Option, none, some,
  arith, inl, inr,
}
use ai_ssh.Base.Tests.{ltb, Bool-cases, if◌then◌else◌}
use ai_ssh.Base.Lists.{All, find, length, is_empty}
use ai_ssh.Base.Text.{Text, text_eq}
use ai_ssh.Protocol.Types.{TerminalEvent, StreamKind}
use ai_ssh.Storage.Tables.{Storage, SessionRow, payload_bytes}
use ai_ssh.Storage.Sessions.{session_is}
use ai_ssh.Storage.Events.{
  append_event, append_to, append_over_limit, append_within_limit, can_insert, same_place,
  command_known, saturating_add,
}
use ai_ssh.Base.Result.{ok}
use ai_ssh.Session.Runtime.{SessionRuntime}
use ai_ssh.Session.Record.{record_event, new_event, live_limit_bytes}
use ai_ssh.Session.Record.Buffer.{keep_live_lem, recording_truncated-keep_live}

-- The session has given every number up to `sequence`: no stored event of it has a later one.
abbrev pub IsNumbered : SessionRuntime → Storage → Type 0
IsNumbered rt db =
    All (λ e. text_eq e.session_id rt.session_id ≡ true → e.sequence ≤ rt.sequence) db.events

-- So the next event finds its place free.
fresh_place :
    (rt : SessionRuntime) (e : TerminalEvent) (es : List TerminalEvent)
    → e.session_id ≡ rt.session_id
    → rt.sequence < e.sequence
    → All (λ f. text_eq f.session_id rt.session_id ≡ true → f.sequence ≤ rt.sequence) es
    → find (same_place e) es ≡ none
unfolding same_place
fresh_place rt e [] here next h = refl
fresh_place rt e (f ∷ fs) here next h = ground (arith, fresh_place rt e fs here next h.1)

module _ (now instant : ℕ) (command_id : Option Text) (stream : StreamKind) (payload : List ℕ)
    (rt : SessionRuntime) (db : Storage) where
  abbrev pub event : TerminalEvent
  event = new_event now rt command_id stream payload

  abbrev pub after : SessionRuntime × Storage
  after = record_event now instant command_id stream payload (rt, db)

  can_insert_next :
      IsNumbered rt db → command_known command_id db ≡ true → can_insert event db ≡ true
  unfolding can_insert new_event
  can_insert_next v known =
      rw
        (fresh_place rt (new_event now rt command_id stream payload) db.events refl (omega arith) v)
        known

  -- Output of a session whose row is gone from the database is stored nowhere, and nothing says so:
  -- no flag is set, though the time of the last output moves on.
  pub record_event_without_row :
      find (session_is rt.session_id) db.sessions ≡ none
      → (after.1 ≡ db)
        × (after.0.live_events ≡ rt.live_events)
        × (after.0.recording_truncated ≡ rt.recording_truncated)
        × (after.0.live_tail_dropped ≡ rt.live_tail_dropped)
        × (after.0.last_output_at ≡ some instant)
  unfolding record_event append_event new_event
  record_event_without_row missing = ground arith

  module _ (row : SessionRow) (found : find (session_is rt.session_id) db.sessions ≡ some row)
      (numbered : IsNumbered rt db) (known : command_known command_id db ≡ true) where
    stored_within :
        ltb db.recording_limit_bytes (saturating_add row.recorded_bytes (length payload)) ≡ false
        → append_event event db
          ≡ record { db = append_within_limit event db; event = event; outcome = ok tt }
    unfolding append_event append_to new_event
    stored_within room = rw (found, append_event) (rw room (rw (can_insert_next numbered known)))

    stored_over :
        ltb db.recording_limit_bytes (saturating_add row.recorded_bytes (length payload)) ≡ true
        → append_event event db ≡ (
            let over = record event { persisted = false } in
            record { db = append_over_limit over db; event = over; outcome = ok tt })
    unfolding append_event append_to new_event
    stored_over full = rw (found, append_event) (rw full)

    -- Either the event fits the recording limit: then it is stored behind all others, and the buffer
    -- is as it was. Or it does not: then nothing is stored, the recording is marked as truncated, and
    -- the event goes to the end of the buffer, of which at most 4 MiB stay; what is dropped for that
    -- is the oldest part, and if any is, the flag for lost output is set.
    pub record_event_lem :
        ((ltb db.recording_limit_bytes (saturating_add row.recorded_bytes (length payload)) ≡ false)
          × (after.1.events ≡ db.events ++ event ∷ [])
          × (after.0.live_events ≡ rt.live_events)
          × (after.0.live_tail_dropped ≡ rt.live_tail_dropped))
        ⊎ ((dropped : List TerminalEvent) × (ltb db.recording_limit_bytes
                (saturating_add row.recorded_bytes (length payload))
              ≡ true)
            × (after.1.events ≡ db.events)
            × (after.0.recording_truncated ≡ true)
            × (rt.live_events ++ record event { persisted = false } ∷ []
                ≡ dropped ++ after.0.live_events)
            × (payload_bytes after.0.live_events ≤ live_limit_bytes)
            × (after.0.live_tail_dropped
                ≡ (if not (is_empty dropped) then true else rt.live_tail_dropped)))
    unfolding record_event append_within_limit append_over_limit
    record_event_lem =
        let over = record event { persisted = false } in
        let counted = record rt { sequence = rt.sequence + 1; last_activity = instant } in
        elim (Bool-cases
          (ltb db.recording_limit_bytes (saturating_add row.recorded_bytes (length payload)))) [
            | inr room ↦
                let stored = stored_within room in
                inl (room, rw stored refl, rw stored refl, rw stored refl)
            | inl full ↦
                let (dropped, parts, fits, needed, told) =
                  keep_live_lem live_limit_bytes over counted in
                let stored = stored_over full in
                inr (
                  dropped,
                  full,
                  rw stored refl,
                  rw stored (recording_truncated-keep_live live_limit_bytes over counted),
                  rw stored parts,
                  rw stored fits,
                  rw stored told,
                )
          ]
