-- ===== src/Session/Record/Ordered.antt =====
-- crates/session/src/lib.rs: the order in which `record` leaves the output of a command, what is stored
-- of it before what is in memory.
use mathlib.Core.List.{append_assoc, append-nil}
use ai_ssh.Base.{
  ℕ, ◌+◌, ◌≤◌, ◌<◌, ◌≡◌, ◌⊎◌, ap, subst, ◌∙◌, Bool, true, false, List, [], ◌∷◌, ◌++◌, Option, some,
  arith, inl, inr,
}
use ai_ssh.Base.Tests.{ltb, Bool-cases}
use ai_ssh.Base.Lists.{All, All-append, keep, find, length}
use ai_ssh.Base.Text.{Text, text_eq, text_eq_iff}
use ai_ssh.Protocol.Types.{TerminalEvent, StreamKind}
use ai_ssh.Storage.Tables.{Storage, SessionRow, sort_by_sequence}
use ai_ssh.Storage.Sessions.{session_is}
use ai_ssh.Storage.Events.{Column, matches, matching_events, command_known, saturating_add}
use ai_ssh.Storage.Events.Order.{Ascends, All-sort}
use ai_ssh.Storage.Events.Unique.{Belongs}
use ai_ssh.Session.Runtime.{SessionRuntime}
use ai_ssh.Session.Record.{new_event}
use ai_ssh.Session.Page.{is_wanted}
use ai_ssh.Session.Record.Loss.{IsNumbered, event, after, record_event_lem}
use ai_ssh.Storage.Events.Snoc.{
  Below, Ascends-without, keep-append_any, sort-snoc_one, Ascends-snoc_one,
}

module _ (id : Text) where
  abbrev of_command : TerminalEvent → Bool
  of_command = matches Column.by_command id 0

  abbrev in_memory : TerminalEvent → Bool
  in_memory = is_wanted 0 (some id)

  abbrev combined : List TerminalEvent → List TerminalEvent → List TerminalEvent
  combined stored live = sort_by_sequence (keep of_command stored) ++ keep in_memory live

  -- What the database and the buffer have of the command, in the order in which it is read.
  abbrev pub recorded : Storage → List TerminalEvent → List TerminalEvent
  recorded db live = matching_events Column.by_command id 0 db ++ keep in_memory live

  module _ (rt : SessionRuntime) where
    stored-Below :
        (stored : List TerminalEvent)
        → Belongs Column.by_command id rt.session_id stored
        → All (λ e. text_eq e.session_id rt.session_id ≡ true → e.sequence ≤ rt.sequence) stored
        → Below (rt.sequence + 1) (keep of_command stored)
    unfolding matches
    stored-Below [] b v = tt
    stored-Below (e ∷ es) b v = elim (Bool-cases (of_command e)) [
      | inl shown ↦
          let here : e.session_id ≡ rt.session_id = b.0 (ground arith) in
          let low : e.sequence ≤ rt.sequence =
            v.0 ((text_eq_iff e.session_id rt.session_id).1 here) in
          rw shown (omega arith, stored-Below es b.1 v.1)
      | inr hidden ↦ rw hidden (stored-Below es b.1 v.1)
    ]

    live-Below :
        (live : List TerminalEvent)
        → All (λ e. e.sequence ≤ rt.sequence) live
        → Below (rt.sequence + 1) (keep in_memory live)
    live-Below [] h = tt
    live-Below (e ∷ es) h = ground (arith, live-Below es h.1)

    module _ (now instant : ℕ) (command_id : Option Text) (stream : StreamKind) (payload : List ℕ)
        (db : Storage) (row : SessionRow)
        (found : find (session_is rt.session_id) db.sessions ≡ some row)
        (numbered : IsNumbered rt db) (known : command_known command_id db ≡ true)
        (owned : Belongs Column.by_command id rt.session_id db.events)
        (given : All (λ e. e.sequence ≤ rt.sequence) rt.live_events)
        (ordered : Ascends 0 (recorded db rt.live_events)) where
      abbrev stored_part : List TerminalEvent
      stored_part = keep of_command db.events

      abbrev next : TerminalEvent
      next = event now instant command_id stream payload rt db

      abbrev next_over : TerminalEvent
      next_over = record next { persisted = false }

      abbrev result : SessionRuntime × Storage
      result = after now instant command_id stream payload rt db

      sorted-Below : Below (rt.sequence + 1) (sort_by_sequence stored_part)
      sorted-Below =
          All-sort (λ e. e.sequence < rt.sequence + 1) stored_part
            (stored-Below db.events owned numbered)

      recorded_stored :
          keep in_memory rt.live_events ≡ []
          → Ascends 0 (combined (db.events ++ next ∷ []) rt.live_events)
      unfolding new_event matching_events
      recorded_stored none_live =
          let none_kept = append-nil (sort_by_sequence stored_part) in
          let before : Ascends 0 (sort_by_sequence stored_part) =
            subst (Ascends 0) (ap (sort_by_sequence stored_part ++◌) none_live ∙ none_kept)
              ordered in
          rw
            (
              none_live,
              append-nil (sort_by_sequence (keep of_command (db.events ++ next ∷ []))),
              keep-append_any of_command db.events (next ∷ []),
              sort-snoc_one of_command next stored_part (stored-Below db.events owned numbered),
            )
            (Ascends-snoc_one of_command next 0 (sort_by_sequence stored_part) (omega arith) before
              sorted-Below)

      recorded_over :
          (dropped live : List TerminalEvent)
          → rt.live_events ++ next_over ∷ [] ≡ dropped ++ live
          → Ascends 0 (combined db.events live)
      unfolding new_event matching_events
      recorded_over dropped live parts =
          let sorted = sort_by_sequence stored_part in
          let grown : Ascends 0 (sorted ++ keep in_memory (rt.live_events ++ next_over ∷ [])) =
            rw
              (
                keep-append_any in_memory rt.live_events (next_over ∷ []),
                ← append_assoc sorted (keep in_memory rt.live_events)
                    (keep in_memory (next_over ∷ [])),
              )
              (Ascends-snoc_one in_memory next_over 0 (combined db.events rt.live_events)
                (omega arith) ordered
                (All-append (λ e. e.sequence < rt.sequence + 1) sorted
                  (keep in_memory rt.live_events) sorted-Below
                  (live-Below rt.live_events given))) in
          Ascends-without 0 sorted (keep in_memory dropped) (keep in_memory live) (
            subst (λ es. Ascends 0 (sorted ++ es))
              (ap (keep in_memory) parts ∙ keep-append_any in_memory dropped live) grown)

      -- Recording output for a session with a row, for a known command or for none, keeps the output
      -- of any one command in ascending order, what is stored of it before what is in memory: if the
      -- stored output of that command is of this session, no number was given beyond the last, and
      -- either the event is over the recording limit or no output of that command is in memory.
      pub record_event-Ascends :
          (ltb db.recording_limit_bytes (saturating_add row.recorded_bytes (length payload)) ≡ true)
            ⊎ (keep in_memory rt.live_events ≡ [])
          → Ascends 0 (recorded result.1 result.0.live_events)
      unfolding matching_events
      record_event-Ascends allowed =
          elim (record_event_lem now instant command_id stream payload rt db row found numbered
            known) [
              | inl (room, events, live, told) ↦
                  let none_live : keep in_memory rt.live_events ≡ [] = elim allowed [
                    | inl full ↦ ground (arith, room, full)
                    | inr none_live ↦ none_live
                  ] in
                  rw (events, live) (recorded_stored none_live)
              | inr (dropped, full, events, truncated, parts, fits, told) ↦
                  rw events (recorded_over dropped result.0.live_events parts)
            ]
