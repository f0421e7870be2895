-- ===== src/Storage/Events/Unique.antt =====
-- `UNIQUE(session_id,sequence)` of crates/storage/src/lib.rs: recording keeps it, and it makes the
-- events of a session strictly ascending once they are sorted.
use ai_ssh.Base.{ℕ, ◌<◌, ◌≡◌, true, false, List, [], ◌∷◌, ◌++◌, none, arith, inl, inr}
use ai_ssh.Base.Tests.{Bool-cases, Option-cases}
use ai_ssh.Base.Text.{Text, text_eq_iff}
use ai_ssh.Base.Lists.{All, All-append, find, keep}
use ai_ssh.Protocol.Types.{TerminalEvent}
use ai_ssh.Storage.Tables.{Storage, SessionRow}
use ai_ssh.Storage.Sessions.{session_is}
use ai_ssh.Storage.Events.{
  Column, selects, same_place, can_insert, append_to, append_event, append_over_limit,
  append_within_limit, matches, matching_events,
}
use ai_ssh.Storage.Events.Order.{Ascends, Absent, Distinct, sort-Ascends}

-- No two rows have the same session and sequence number.
abbrev pub UniquePlaces : List TerminalEvent → Type 0
UniquePlaces [] = Unit
UniquePlaces (e ∷ es) = All (λ f. same_place e f ≡ false) es × UniquePlaces es

same_place_comm : (e f : TerminalEvent) → same_place e f ≡ false → same_place f e ≡ false
unfolding same_place
same_place_comm e f h =
    ground (arith, text_eq_iff e.session_id f.session_id, text_eq_iff f.session_id e.session_id)

UniquePlaces-append :
    (es : List TerminalEvent) (e : TerminalEvent)
    → UniquePlaces es
    → find (same_place e) es ≡ none
    → UniquePlaces (es ++ e ∷ [])
UniquePlaces-append [] e u h = (tt, tt)
UniquePlaces-append (f ∷ fs) e u h = elim (Bool-cases (same_place e f)) [
  | inl clash ↦ absurd (ground arith)
  | inr free ↦ (
    All-append (λ g. same_place f g ≡ false) fs (e ∷ []) u.0 (same_place_comm e f free, tt),
    UniquePlaces-append fs e u.1 (ground arith),
  )
]

append_to-UniquePlaces :
    (row : SessionRow) (e : TerminalEvent) (db : Storage)
    → UniquePlaces db.events
    → UniquePlaces (append_to row e db).db.events
unfolding append_to append_over_limit append_within_limit can_insert
append_to-UniquePlaces row e db u =
    let within = record e { persisted = true } in
    ground (arith, UniquePlaces-append db.events within u)

-- Recording an event keeps the rows unique, on every branch: a row that would clash is refused.
pub append_event-UniquePlaces :
    (e : TerminalEvent) (db : Storage)
    → UniquePlaces db.events
    → UniquePlaces (append_event e db).db.events
unfolding append_event
append_event-UniquePlaces e db u =
    elim (Option-cases (find (session_is e.session_id) db.sessions)) [
      | inl missing ↦ rw (missing, append_event) u
      | inr (row, found) ↦ rw (found, append_event) (append_to-UniquePlaces row e db u)
    ]

-- Every row that the column selects belongs to the session.
abbrev pub Belongs : Column → Text → Text → List TerminalEvent → Type 0
Belongs column id owner = All (λ e. selects column id e ≡ true → e.session_id ≡ owner)

module _ (column : Column) (id owner : Text) (after : ℕ) where
  keep-Absent :
      (e : TerminalEvent) (es : List TerminalEvent)
      → e.session_id ≡ owner
      → All (λ f. same_place e f ≡ false) es
      → Belongs column id owner es
      → Absent e.sequence (keep (matches column id after) es)
  unfolding matches same_place
  keep-Absent e [] here u b = tt
  keep-Absent e (f ∷ fs) here u b =
      ground (arith, text_eq_iff f.session_id e.session_id, keep-Absent e fs here u.1 b.1)

  keep-Distinct :
      (es : List TerminalEvent)
      → UniquePlaces es
      → Belongs column id owner es
      → Distinct (keep (matches column id after) es)
  unfolding matches
  keep-Distinct [] u b = tt
  keep-Distinct (e ∷ es) u b = elim (Bool-cases (matches column id after e)) [
    | inl shown ↦ rw shown (keep-Absent e es (b.0 (ground arith)) u.0 b.1, keep-Distinct es u.1 b.1)
    | inr hidden ↦ rw hidden (keep-Distinct es u.1 b.1)
  ]

  keep-above_after :
      (es : List TerminalEvent) → All (λ e. after < e.sequence) (keep (matches column id after) es)
  unfolding matches
  keep-above_after [] = tt
  keep-above_after (e ∷ es) = ground (arith, keep-above_after es)

  -- The events that match are strictly ascending, above the cursor that the reader gave.
  pub matching_events-Ascends :
      (db : Storage)
      → UniquePlaces db.events
      → Belongs column id owner db.events
      → Ascends after (matching_events column id after db)
  unfolding matching_events
  matching_events-Ascends db u b =
      sort-Ascends after (keep (matches column id after) db.events) (keep-above_after db.events)
        (keep-Distinct db.events u b)
