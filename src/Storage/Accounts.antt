-- ===== src/Storage/Accounts.antt =====
-- crates/storage/src/lib.rs: the recording limit. What a session's row counts is what is stored for
-- it, and never passes the limit, after any operations on the database.
pub mod Owned
pub mod History
use ai_ssh.Base.{
  ℕ, zero, suc, ◌+◌, ◌-◌, ◌^◌, ◌≤◌, ◌<◌, ◌≡◌, refl, ap, subst, sym, ◌∙◌, Bool, true, false, not,
  ◌&&◌, ◌||◌, List, [], ◌∷◌, ◌++◌, map, Option, none, some, arith, inl, inr,
}
use ai_ssh.Base.Tests.{ltb, ◌==◌, Bool-cases, Option-cases, if◌then◌else◌, is_some}
use ai_ssh.Base.Text.{Text, text_eq, text_eq_iff, text_eq_refl}
use ai_ssh.Base.Result.{Result, ok, err}
use ai_ssh.Base.Lists.{
  All, All-append, All-keep, All-map, All-keep_test, find, find-All, find_weaken, keep, length,
}
use ai_ssh.Protocol.Types.{SessionInfo, CommandInfo, TerminalEvent}
use ai_ssh.Storage.Tables.{Storage, SessionRow, update_where, payload_bytes, open_empty}
use ai_ssh.Storage.Sessions.{
  session_is, has_session, merge_session, upsert_session, interrupt_unfinished, is_over, is_expired,
  cleanup,
}
use ai_ssh.Storage.Commands.{insert_command, update_command}
use ai_ssh.Storage.Events.{
  append_event, append_to, append_over_limit, append_within_limit, mark_session_truncated,
  count_session_bytes, can_insert,
}

-- The bytes that are stored for a session.
abbrev pub of_session : Text → TerminalEvent → Bool
of_session id e = text_eq e.session_id id

unfoldable pub stored_bytes : Text → List TerminalEvent → ℕ
unfolding payload_bytes
stored_bytes id es = payload_bytes (keep (of_session id) es)

abbrev pub Counts : ℕ → List TerminalEvent → SessionRow → Type 0
Counts limit es r = (r.recorded_bytes ≡ stored_bytes r.info.id es) × (r.recorded_bytes ≤ limit)

pub record IsAccounted (db : Storage) : Type 0 where
  pub counted : All (Counts db.recording_limit_bytes db.events) db.sessions
  pub rooted : All (λ e. has_session e.session_id db ≡ true) db.events
  pub limit_fits : db.recording_limit_bytes < 2 ^ 64 - 1

module _ {ℓ κ} {A : Type ℓ} (P Q : A → Type κ) (test : A → Bool) (change : A → A) where
  pub All-update_where :
      ((a : A) → test a ≡ true → P a → Q (change a))
      → ((a : A) → test a ≡ false → P a → Q a)
      → (rows : List A) → All P rows
      → All Q (update_where test change rows)
  unfolding update_where
  All-update_where hit miss [] h = tt
  All-update_where hit miss (a ∷ rest) h = elim (Bool-cases (test a)) [
    | inl e ↦ rw e (hit a e h.0, All-update_where hit miss rest h.1)
    | inr e ↦ rw e (miss a e h.0, All-update_where hit miss rest h.1)
  ]

-- An update that keeps the ids keeps the sessions that exist.
pub find-update_where :
    (id : Text) (test : SessionRow → Bool) (change : SessionRow → SessionRow)
    → ((r : SessionRow) → (change r).info.id ≡ r.info.id)
    → (rs : List SessionRow)
    → is_some (find (session_is id) (update_where test change rs))
      ≡ is_some (find (session_is id) rs)
unfolding update_where
find-update_where id test change keeps [] = refl
find-update_where id test change keeps (r ∷ rs) =
    ground (arith, keeps r, find-update_where id test change keeps rs)

pub stored_bytes-append :
    (id : Text) (es : List TerminalEvent) (e : TerminalEvent)
    → stored_bytes id (es ++ e ∷ [])
      ≡ stored_bytes id es + (if of_session id e then length e.payload else 0)
unfolding stored_bytes
stored_bytes-append id [] e = ground arith
stored_bytes-append id (f ∷ fs) e = ground (arith, stored_bytes-append id fs e)

module _ (e : TerminalEvent) (db : Storage) where
  -- A row keeps its count when the event is another session's, and its own event is added to it.
  count-Counts :
      (row : SessionRow)
      → find (session_is e.session_id) db.sessions ≡ some row
      → IsAccounted db
      → ltb db.recording_limit_bytes (row.recorded_bytes + length e.payload) ≡ false
      → All
          (Counts db.recording_limit_bytes (db.events ++ e ∷ []))
          (count_session_bytes e.session_id (length e.payload) db.sessions)
  unfolding count_session_bytes
  count-Counts row found v room =
      let (at_row, hit) =
        find-All (Counts db.recording_limit_bytes db.events) _ db.sessions row found v.counted in
      All-update_where (Counts db.recording_limit_bytes db.events)
        (Counts db.recording_limit_bytes (db.events ++ e ∷ [])) (session_is e.session_id)
        (λ r. record r { recorded_bytes = r.recorded_bytes + length e.payload })
        (λ r mine c. ground (
          arith,
          stored_bytes-append r.info.id db.events e,
          text_eq_iff r.info.id e.session_id,
          text_eq_iff e.session_id r.info.id,
          text_eq_iff row.info.id e.session_id,
        ))
        (λ r other c. ground (
          arith,
          stored_bytes-append r.info.id db.events e,
          text_eq_iff r.info.id e.session_id,
          text_eq_iff e.session_id r.info.id,
        ))
        db.sessions v.counted

  has_session-count :
      (id : Text) (n : ℕ)
      → is_some (find (session_is id) (count_session_bytes e.session_id n db.sessions))
        ≡ is_some (find (session_is id) db.sessions)
  unfolding count_session_bytes
  has_session-count id n = find-update_where id _ _ (λ r. refl) db.sessions

  has_session-mark :
      (id : Text)
      → is_some (find (session_is id) (mark_session_truncated e.session_id db.sessions))
        ≡ is_some (find (session_is id) db.sessions)
  unfolding mark_session_truncated
  has_session-mark id = find-update_where id _ _ (λ r. refl) db.sessions

  within-IsAccounted :
      (row : SessionRow)
      → find (session_is e.session_id) db.sessions ≡ some row
      → IsAccounted db
      → ltb db.recording_limit_bytes (row.recorded_bytes + length e.payload) ≡ false
      → IsAccounted (append_within_limit e db)
  unfolding append_within_limit has_session
  within-IsAccounted row found v room = record {
    counted = count-Counts row found v room;
    rooted =
        All-map (λ f h. has_session-count f.session_id (length e.payload) ∙ h) (db.events ++ e ∷ [])
          (All-append _ db.events (e ∷ []) v.rooted (rw found refl, tt));
    limit_fits = v.limit_fits;
  }

  over-IsAccounted : IsAccounted db → IsAccounted (append_over_limit e db)
  unfolding append_over_limit has_session mark_session_truncated
  over-IsAccounted v = record {
    counted =
        All-update_where (Counts db.recording_limit_bytes db.events)
          (Counts db.recording_limit_bytes db.events) (session_is e.session_id) _ (λ r _ c. c)
          (λ r _ c. c) db.sessions v.counted;
    rooted = All-map (λ f h. has_session-mark f.session_id ∙ h) db.events v.rooted;
    limit_fits = v.limit_fits;
  }

append_to-IsAccounted :
    (row : SessionRow) (e : TerminalEvent) (db : Storage)
    → find (session_is e.session_id) db.sessions ≡ some row
    → IsAccounted db
    → IsAccounted (append_to row e db).db
unfolding append_to
append_to-IsAccounted row e db found v =
    let over = record e { persisted = false } in
    let within = record e { persisted = true } in
    ground (arith, over-IsAccounted over db v, within-IsAccounted within db row found v)

-- Recording an event keeps the accounts, on every branch.
pub append_event-IsAccounted :
    (e : TerminalEvent) (db : Storage) → IsAccounted db → IsAccounted (append_event e db).db
unfolding append_event
append_event-IsAccounted e db v = elim (Option-cases (find (session_is e.session_id) db.sessions)) [
  | inl missing ↦ rw (missing, append_event) v
  | inr (row, found) ↦ rw (found, append_event) (append_to-IsAccounted row e db found v)
]
