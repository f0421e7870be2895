-- ===== src/Storage/Accounts/History.antt =====
-- crates/storage/src/lib.rs: the accounts of the recording limit over a history of operations.
use ai_ssh.Base.{
  ℕ, ◌-◌, ◌*◌, ◌^◌, ◌<◌, ◌≡◌, refl, sym, ◌∙◌, Bool, true, false, not, List, [], ◌∷◌, ◌++◌, arith,
  inl, inr,
}
use ai_ssh.Base.Tests.{Bool-cases, is_some}
use ai_ssh.Base.Text.{Text, text_eq_iff, text_eq_refl}
use ai_ssh.Base.Result.{Result, ok, err}
use ai_ssh.Base.Lists.{
  All, All-append, All-keep, All-map, All-zip, All-keep_test, find, find_weaken, keep,
}
use ai_ssh.Protocol.Types.{SessionInfo, CommandInfo, TerminalEvent}
use ai_ssh.Storage.Tables.{Storage, StorageError, SessionRow, open_empty}
use ai_ssh.Storage.Sessions.{
  session_is, has_session, merge_session, upsert_session, interrupt_unfinished, is_expired, cleanup,
  nanoseconds_per_day,
}
use ai_ssh.Storage.Commands.{command, insert_command, update_command}
use ai_ssh.Storage.Events.{append_event}
use ai_ssh.Storage.Accounts.Owned.{
  AllOwned, NotOthers, AllOwned_lifts, owner-append, update_command-AllOwned, append_event-AllOwned,
  keep-AllOwned, cleanup-AllOwned,
}
use ai_ssh.Storage.Accounts.{
  IsAccounted, Counts, stored_bytes, All-update_where, find-update_where, append_event-IsAccounted,
}

-- An operation on the database, with the time where it reads the clock.
pub data Operation : Type 0 where
  upsert : SessionInfo → Operation
  insert update : CommandInfo → Operation
  append : TerminalEvent → Operation
  interrupt : (now : ℕ) → Operation
  clean : (now retention_days : ℕ) → Operation

-- A statement that fails changes nothing.
abbrev unless_refused : Storage → Result StorageError Storage → Storage
unless_refused db (ok after) = after
unless_refused db (err e) = db

unfoldable pub apply : Operation → Storage → Storage
apply (upsert s) db = upsert_session s db
apply (insert c) db = unless_refused db (insert_command c db)
apply (update c) db = update_command c db
apply (append e) db = (append_event e db).db
apply (interrupt now) db = interrupt_unfinished now db
apply (clean now days) db = (cleanup now days db).0

unfoldable pub run : List Operation → Storage → Storage
run [] db = db
run (o ∷ os) db = run os (apply o db)

-- No event of a session that has no row.
stored_bytes_of_new :
    (id : Text) (known : Text → Bool) (es : List TerminalEvent)
    → known id ≡ false
    → All (λ e. known e.session_id ≡ true) es
    → stored_bytes id es ≡ 0
unfolding stored_bytes
stored_bytes_of_new id known [] h v = refl
stored_bytes_of_new id known (e ∷ es) h v =
    ground (arith, text_eq_iff e.session_id id, stored_bytes_of_new id known es h v.1)

find-append_some :
    (id : Text) (rs ss : List SessionRow)
    → is_some (find (session_is id) rs) ≡ true
    → is_some (find (session_is id) (rs ++ ss)) ≡ true
find-append_some id [] ss h = cc
find-append_some id (r ∷ rs) ss h = ground (arith, find-append_some id rs ss)

upsert_session-IsAccounted :
    (s : SessionInfo) (db : Storage) → IsAccounted db → IsAccounted (upsert_session s db)
unfolding upsert_session has_session merge_session
upsert_session-IsAccounted s db v = elim (Bool-cases (has_session s.id db)) [
  | inl old ↦ rw old (record {
    counted =
        All-update_where (Counts db.recording_limit_bytes db.events)
          (Counts db.recording_limit_bytes db.events) (session_is s.id) (merge_session s)
          (λ r _ c. c) (λ r _ c. c) db.sessions v.counted;
    rooted =
        All-map (λ e h. find-update_where e.session_id _ _ (λ r. refl) db.sessions ∙ h) db.events
          v.rooted;
    limit_fits = v.limit_fits;
  })
  | inr new ↦ rw new (record {
    counted = All-append _ db.sessions _ v.counted (
      (
        sym (stored_bytes_of_new s.id (λ id. has_session id db) db.events new v.rooted),
        omega arith,
      ),
      tt,
    );
    rooted = All-map (λ e h. find-append_some e.session_id db.sessions _ h) db.events v.rooted;
    limit_fits = v.limit_fits;
  })
]

insert_command-IsAccounted :
    (c : CommandInfo) (db : Storage)
    → IsAccounted db
    → IsAccounted (unless_refused db (insert_command c db))
unfolding insert_command has_session
insert_command-IsAccounted c db v = elim (Bool-cases (is_some (command c.id db))) [
  | inl taken ↦ rw (taken, insert_command) v
  | inr free ↦ elim (Bool-cases (has_session c.session_id db)) [
    | inl known ↦
        rw (free, known, insert_command)
          (record { counted = v.counted; rooted = v.rooted; limit_fits = v.limit_fits })
    | inr missing ↦ rw (free, missing, insert_command) v
  ]
]

interrupt_unfinished-IsAccounted :
    (now : ℕ) (db : Storage) → IsAccounted db → IsAccounted (interrupt_unfinished now db)
unfolding interrupt_unfinished has_session
interrupt_unfinished-IsAccounted now db v = record {
  counted =
      All-update_where (Counts db.recording_limit_bytes db.events)
        (Counts db.recording_limit_bytes db.events) _ _ (λ r _ c. c) (λ r _ c. c) db.sessions
        v.counted;
  rooted =
      All-map (λ e h. find-update_where e.session_id _ _ (λ r. refl) db.sessions ∙ h) db.events
        v.rooted;
  limit_fits = v.limit_fits;
}

-- Every row of a table is found by its own id.
All-found : (rs : List SessionRow) → All (λ r. is_some (find (session_is r.info.id) rs) ≡ true) rs
All-found [] = tt
All-found (r ∷ rs) = (
  rw (text_eq_refl r.info.id) refl,
  All-map (λ s h. find_weaken (session_is s.info.id) r rs h) rs (All-found rs),
)

-- What stays of the events of a session that stays is all of them.
stored_bytes-keep :
    (id : Text) (stays : Text → Bool) (es : List TerminalEvent)
    → stays id ≡ true
    → stored_bytes id (keep (λ e. stays e.session_id) es) ≡ stored_bytes id es
unfolding stored_bytes
stored_bytes-keep id stays [] h = refl
stored_bytes-keep id stays (e ∷ es) h =
    ground (arith, text_eq_iff e.session_id id, stored_bytes-keep id stays es h)

-- The expired sessions go with all their events, and of owned events no others go.
cleanup-IsAccounted :
    (now days : ℕ) (db : Storage)
    → IsAccounted db
    → AllOwned db
    → IsAccounted (cleanup now days db).0
unfolding cleanup has_session
cleanup-IsAccounted now days db v owned =
    let left = keep (λ r. not (is_expired (now - days * nanoseconds_per_day) r)) db.sessions in
    let stays = λ (id : Text). is_some (find (session_is id) left) in
    rw (keep-AllOwned stays db.commands db.events owned) (record {
      counted =
          All-zip (Counts db.recording_limit_bytes db.events) (λ r. stays r.info.id ≡ true)
            (Counts db.recording_limit_bytes (keep (λ e. stays e.session_id) db.events))
            (λ r c f. (c.0 ∙ sym (stored_bytes-keep r.info.id stays db.events f), c.1)) left
            (All-keep _ _ db.sessions v.counted) (All-found left);
      rooted = All-keep_test (λ e. stays e.session_id) db.events;
      limit_fits = v.limit_fits;
    })

upsert_session-AllOwned :
    (s : SessionInfo) (db : Storage) → AllOwned db → AllOwned (upsert_session s db)
unfolding upsert_session
upsert_session-AllOwned s db v = elim (Bool-cases (has_session s.id db)) [
  | inl old ↦ rw old v
  | inr new ↦ rw new v
]

insert_command-AllOwned :
    (c : CommandInfo) (db : Storage)
    → AllOwned db
    → AllOwned (unless_refused db (insert_command c db))
unfolding insert_command
insert_command-AllOwned c db v = elim (Bool-cases (is_some (command c.id db))) [
  | inl taken ↦ rw (taken, insert_command) v
  | inr free ↦ elim (Bool-cases (has_session c.session_id db)) [
    | inl known ↦
        rw (free, known, insert_command)
          (AllOwned_lifts db.commands (db.commands ++ c ∷ []) (owner-append db.commands (c ∷ []))
            db.events v)
    | inr missing ↦ rw (free, missing, insert_command) v
  ]
]

-- The database counts what it stores, and its events are owned.
abbrev pub IsSound : Storage → Type 0
IsSound db = IsAccounted db × AllOwned db

-- An event that is recorded names no command, or one that is not another session's.
abbrev pub Respects : Operation → Storage → Type 0
Respects (append e) db = NotOthers db.commands e.session_id e.command_id
Respects _ db = Unit {0}

abbrev pub AllRespect : List Operation → Storage → Type 0
AllRespect [] db = Unit {0}
AllRespect (o ∷ os) db = Respects o db × AllRespect os (apply o db)

apply-IsSound : (o : Operation) (db : Storage) → Respects o db → IsSound db → IsSound (apply o db)
unfolding apply
apply-IsSound (upsert s) db own (v, owned) =
    (upsert_session-IsAccounted s db v, upsert_session-AllOwned s db owned)
apply-IsSound (insert c) db own (v, owned) =
    (insert_command-IsAccounted c db v, insert_command-AllOwned c db owned)
apply-IsSound (update c) db own (v, owned) = (
  unfold update_command has_session in
      record { counted = v.counted; rooted = v.rooted; limit_fits = v.limit_fits },
  update_command-AllOwned c db owned,
)
apply-IsSound (append e) db own (v, owned) =
    (append_event-IsAccounted e db v, append_event-AllOwned e db own owned)
apply-IsSound (interrupt now) db own (v, owned) =
    (interrupt_unfinished-IsAccounted now db v, unfold interrupt_unfinished in owned)
apply-IsSound (clean now days) db own (v, owned) =
    (cleanup-IsAccounted now days db v owned, cleanup-AllOwned now days db owned)

-- After any operations on a database in order, for every session: the bytes that its row counts are
-- the bytes of the events that are stored for it, and are within the recording limit; every stored
-- event belongs to a session that has a row; and if it names a command, to the session of that
-- command's row. In order means that all this holds before, and the limit in bytes fits a `u64`; and
-- no event is recorded for a command that is another session's at that time, since the database would
-- delete such an event with the other session.
pub run-IsAccounted :
    (os : List Operation) (db : Storage) → AllRespect os db → IsSound db → IsSound (run os db)
unfolding run
run-IsAccounted [] db own v = v
run-IsAccounted (o ∷ os) db own v =
    run-IsAccounted os (apply o db) own.1 (apply-IsSound o db own.0 v)

-- A new database is in order, for any limit whose bytes fit a `u64`.
pub open_empty-IsAccounted :
    (mib : ℕ) → mib * 1024 * 1024 < 2 ^ 64 - 1 → IsAccounted (open_empty mib)
unfolding open_empty
open_empty-IsAccounted mib h = record { counted = tt; rooted = tt; limit_fits = h }
